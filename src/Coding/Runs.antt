-- ===== src/Coding/Runs.antt =====
-- Runs of the coding routines, and the theorems at concrete inputs.
use ycsb_c_cloud.Base.{◌≡◌, refl, ◌++◌, arith, false, true, none, some, [], ◌∷◌}
use ycsb_c_cloud.Coding.Bytes.{little, big, object_bytes, load}
use ycsb_c_cloud.Coding.{encode_fixed32, encode_fixed64, decode_fixed32, decode_fixed64}
use ycsb_c_cloud.Coding.RoundTrip.{decode_fixed32-encode_fixed32, decode_fixed64-encode_fixed64}

encode_little : encode_fixed64 true little 258 ≡ 2 ∷ 1 ∷ 0 ∷ 0 ∷ 0 ∷ 0 ∷ 0 ∷ 0 ∷ []
unfolding encode_fixed64 object_bytes
encode_little = refl

decode_short : decode_fixed64 true little (1 ∷ 2 ∷ 3 ∷ []) ≡ none
unfolding decode_fixed64 load
decode_short = refl

decode_fixed32-encode_fixed32_example :
    decode_fixed32 false big (encode_fixed32 false big 0xdeadbeef ++ 7 ∷ []) ≡ some 0xdeadbeef
decode_fixed32-encode_fixed32_example =
    decode_fixed32-encode_fixed32 false big 0xdeadbeef (7 ∷ []) (omega arith)

decode_fixed64-encode_fixed64_example :
    decode_fixed64 true big (encode_fixed64 true big 0x0123456789abcdef ++ 7 ∷ [])
    ≡ some 0x0123456789abcdef
decode_fixed64-encode_fixed64_example =
    decode_fixed64-encode_fixed64 true big 0x0123456789abcdef (7 ∷ []) (omega arith)

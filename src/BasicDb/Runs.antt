-- ===== src/BasicDb/Runs.antt =====
-- Runs of BasicDB at concrete inputs.
use ycsb_c_cloud.Base.{◌≡◌, refl, some, Str, List, [], ◌∷◌, ◌++◌, codes, map}
use ycsb_c_cloud.Numbers.{pos}
use ycsb_c_cloud.Workload.{returned}
use ycsb_c_cloud.Proc.{getlines}
use ycsb_c_cloud.BasicDb.{newline, value_list, values_part, update_line}
use ycsb_c_cloud.BasicDb.Lines.{
  Request, begins, reads, updates, removes, line_of, answer_all, answer_all-lines,
}

abbrev calls : List Request
calls =
    begins
    ∷ reads (codes "t") (codes "k") (some (codes "f" ∷ []))
    ∷ updates (codes "t") (codes "k") ((codes "f", codes "v") ∷ [])
    ∷ removes (codes "t") (codes "k")
    ∷ []

answer_all-lines_example :
    (out : Str) × (answer_all [] calls ≡ returned (pos 0 ∷ pos 0 ∷ pos 0 ∷ pos 0 ∷ [], out))
    × (getlines out ≡ map line_of calls)
answer_all-lines_example = answer_all-lines calls (
  tt,
  (
    ((refl, tt), (refl, tt), ((refl, tt), tt)),
    (((refl, tt), (refl, tt), (((refl, tt), (refl, tt)), tt)), (((refl, tt), (refl, tt)), tt)),
  ),
)

update_text :
    update_line (codes "t") (codes "k") ((codes "f", codes "v") ∷ [])
    ≡ codes "UPDATE t k [ f=v ]" ++ newline
unfolding update_line values_part value_list
update_text = refl

line_texts :
    map line_of calls
    ≡ codes "A new thread begins working."
      ∷ codes "READ t k [ f ]"
      ∷ codes "UPDATE t k [ f=v ]"
      ∷ codes "DELETE t k"
      ∷ []
line_texts = refl

-- ===== src/Client/Started.antt =====
-- The client's workload as Init of core/core_workload.cc leaves it.
use ycsb_c_cloud.Base.{ℕ, refl, arith, not, codes, str_eq}
use ycsb_c_cloud.Properties.{Properties, get_property}
use ycsb_c_cloud.Numbers.{to_u64}
use ycsb_c_cloud.Generators.Doubles.{Doubles}
use ycsb_c_cloud.Generators.Uniform as Uniform
use ycsb_c_cloud.Generators.Uniform.{UniformEngine, new_uniform}
use ycsb_c_cloud.Workload.{Randoms}
use ycsb_c_cloud.Workload.Options.{insert_order_property, insert_order_default}
use ycsb_c_cloud.Workload.Setup.{Conversions, op_chooser_of, minus_one}
use ycsb_c_cloud.Workload.Fields.{Draws}
use ycsb_c_cloud.Workload.Start.{AsksUniform, started, started-IsUniform}
use ycsb_c_cloud.Client.Ready.{Limits, IsReady}

module _ (d : Doubles) (e : UniformEngine) (r : Randoms d) (c : Conversions d) where
  -- The limits of that workload, where the lengths of its fields and scans have the given ones.
  abbrev pub limits_of :
      (p : Properties) (n : ℕ) (s : r.Source) → AsksUniform d e r c p n s → ℕ → ℕ → ℕ → ℕ → Limits d
  limits_of p n s h low high shortest longest = record {
    records = n;
    low = low;
    high = high;
    first = 0;
    last = to_u64 (minus_one h.field_count);
    shortest = shortest;
    longest = longest;
    ordered =
        not (str_eq (get_property p insert_order_property insert_order_default) (codes "hashed"));
    fields = h.field_count;
    operations = (op_chooser_of d e r c h.read h.update h.insert h.scan h.modify).values;
    total = (op_chooser_of d e r c h.read h.update h.insert h.scan h.modify).sum;
  }

  pub started-IsReady :
      (p : Properties) (n low high shortest longest : ℕ) (s : r.Source)
      (h : AsksUniform d e r c p n s)
      → Draws low high h.lengths.0
      → Draws shortest longest h.scans.0
      → IsReady (limits_of p n s h low high shortest longest) (started d e r c p n s h)
  unfolding new_uniform Uniform.next
  started-IsReady p n low high shortest longest s h lengths scans = record {
    keys = started-IsUniform d e r c p n s h;
    lengths = lengths;
    fields = (omega arith, omega arith, omega arith);
    scans = scans;
    order = refl;
    count = refl;
    operations = refl;
    total = refl;
  }

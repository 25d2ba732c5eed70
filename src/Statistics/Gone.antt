-- ===== src/Statistics/Gone.antt =====
-- A measured network device that goes away while print_my_status pauses.
use ycsb_c_cloud.Base.{◌≡◌, refl, true, false, none, some, Str, List, [], ◌∷◌, ◌++◌, All}
use ycsb_c_cloud.Proc.{NetStats, NetMap, done, get_net_stats, find_stats}
use ycsb_c_cloud.Proc.Bandwidth.{is_measured, net_diffs-gone}
use ycsb_c_cloud.Statistics.{
  Globals, Second, status_round, measure, lost, status_loop, print_my_status, crashed,
  start_globals, amounts_of,
}
use ycsb_c_cloud.Statistics.Totals.{IsReadable, after, round-reported}

-- A round that does not find `done`, and in which a measured device is in the first reading only.
pub record IsGone (r : Second) : Type 0 where
  pub stats1 : NetMap
  pub stats2 : NetMap
  pub reads1 : get_net_stats r.net_dev1 ≡ done stats1
  pub reads2 : get_net_stats r.net_dev2 ≡ done stats2
  pub going : r.done ≡ false
  pub iface : Str
  pub stats : NetStats
  pub known : find_stats stats1 iface ≡ some stats
  pub ens5 : is_measured iface ≡ true
  pub gone : find_stats stats2 iface ≡ none

round-lost : (g : Globals) (r : Second) → IsGone r → status_round g r ≡ lost
unfolding status_round measure
round-lost g r h =
    rw
      (
        status_round,
        h.reads1,
        h.going,
        measure,
        h.reads2,
        net_diffs-gone h.stats1 h.stats2 h.iface h.stats h.known h.ens5 h.gone,
      )
      refl

status_loop-lost :
    (g : Globals) (rs : List Second) (r : Second) (later : List Second)
    → All IsReadable rs
    → All (λ r. r.done ≡ false) rs
    → IsGone r
    → status_loop g (rs ++ r ∷ later) ≡ crashed
unfolding status_loop
status_loop-lost g [] r later readable going h = rw (status_loop, round-lost g r h) refl
status_loop-lost g (r1 ∷ rs) r later (h1, hs) (e, es) h =
    let (report, this, _) = round-reported g r1 h1 e in
    rw
      (
        status_loop,
        this,
        status_loop-lost (after g 1 (amounts_of r1.statistics)) rs r later hs es h,
      )
      refl

-- Where the output file opens, a round in which a device whose name contains ens5 is in the first
-- reading of the network counters but not in the second ends in an exception that nothing catches,
-- whatever readable rounds came before it, and none of them had found `done` set.
pub print_my_status-gone :
    (rs : List Second) (r : Second) (later : List Second)
    → All IsReadable rs
    → All (λ r. r.done ≡ false) rs
    → IsGone r
    → print_my_status true start_globals (rs ++ r ∷ later) ≡ crashed
unfolding print_my_status
print_my_status-gone rs r later readable going h =
    status_loop-lost start_globals rs r later readable going h

-- ===== src/Statistics/Totals.antt =====
-- What the rounds of print_my_status add up to.
use ycsb_c_cloud.Base.{
  ℕ, suc, ◌+◌, ◌%◌, ◌^◌, ◌≡◌, refl, sym, ap, ◌∙◌, arith, true, false, some, List, [], ◌∷◌, ◌++◌,
  All, length,
}
use native.Mathlib.Nat.{zero-add}
use ycsb_c_cloud.Proc.{NetMap, done, get_net_stats}
use ycsb_c_cloud.Proc.Bandwidth.{Stays, net_diffs-done}
use ycsb_c_cloud.Statistics.Sums.{
  total, newest, Fits, amounts_of-Fits, deltas-same, deltas-start, deltas_trans, newest-Fits,
  zero-Fits,
}
use ycsb_c_cloud.Statistics.{
  Amounts, amounts_of, to_uint64, deltas, Globals, Second, Report, report_of, tick, measure,
  status_round, status_loop, print_my_status, print_summary, returned, reported, summarized,
  no_amounts, start_globals,
}

-- The files of /proc parse, and no measured device is gone behind the pause.
pub record IsReadable (r : Second) : Type 0 where
  pub stats1 : NetMap
  pub stats2 : NetMap
  pub reads1 : get_net_stats r.net_dev1 ≡ done stats1
  pub reads2 : get_net_stats r.net_dev2 ≡ done stats2
  pub stays : Stays stats1 stats2

abbrev pub after : Globals → ℕ → Amounts → Globals
after g seconds snaps = record { total_time = to_uint64 (g.total_time + seconds); snaps = snaps }

pub round-reported :
    (g : Globals) (r : Second)
    → IsReadable r
    → r.done ≡ false
    → (report : Report) × (status_round g r ≡ reported (after g 1 (amounts_of r.statistics)) report)
      × (report.interval ≡ deltas (amounts_of r.statistics) g.snaps)
unfolding status_round measure report_of
round-reported g r h going =
    let (net, diffs, _) = net_diffs-done h.stats1 h.stats2 h.stays in
    (
      report_of r g.snaps net,
      rw (status_round, h.reads1, going, measure, h.reads2, diffs) refl,
      refl,
    )

round-summarized :
    (g : Globals) (r : Second) (stats : NetMap)
    → get_net_stats r.net_dev1 ≡ done stats
    → r.done ≡ true
    → status_round g r ≡ summarized (tick g) (print_summary r.statistics (tick g))
unfolding status_round
round-summarized g r stats reads stop = rw (status_round, reads, stop) refl

time-later : (t n : ℕ) → to_uint64 (to_uint64 (t + 1) + suc n) ≡ to_uint64 (t + suc (suc n))
time-later t n = omega arith

-- The run from any values of the globals.
status_loop-ends :
    (g : Globals) (rs : List Second) (last : Second) (stats : NetMap)
    → Fits g.snaps
    → All IsReadable rs
    → All (λ r. r.done ≡ false) rs
    → get_net_stats last.net_dev1 ≡ done stats
    → last.done ≡ true
    → let g' = after g (suc (length rs)) (newest g.snaps rs) in
      (reports : List Report) × (status_loop g (rs ++ last ∷ [])
        ≡ returned g' reports (some (print_summary last.statistics g')))
      × (length reports ≡ length rs)
      × (total reports ≡ deltas (newest g.snaps rs) g.snaps)
unfolding status_loop
status_loop-ends g [] last stats fits readable going reads stop = (
  [],
  rw (status_loop, round-summarized g last stats reads stop) refl,
  refl,
  deltas-same g.snaps fits,
)
status_loop-ends g (r ∷ rs) last stats fits (h, hs) (e, es) reads stop =
    let (report, this, interval) = round-reported g r h e in
    let g1 = after g 1 (amounts_of r.statistics) in
    let (reports, run, count, sum) =
      status_loop-ends g1 rs last stats (amounts_of-Fits r.statistics) hs es reads stop in
    (
      report ∷ reports,
      rw (status_loop, this, run, time-later g.total_time (length rs)) refl,
      ap suc count,
      rw (interval, sum)
          (deltas_trans g.snaps (amounts_of r.statistics) _ fits (amounts_of-Fits r.statistics)),
    )

-- If the output file opens, the files of /proc parse in every round and no measured device goes away,
-- print_my_status returns in the first round that finds `done` set. Before it, it has written one
-- report for every round, and the summary gives as many seconds as there were rounds, modulo 2 ^ 64.
-- The intervals of the reports add up, ticker by ticker and modulo 2 ^ 64, to the tickers of the last
-- report.
pub print_my_status-totals :
    (rs : List Second) (last : Second) (stats : NetMap)
    → All IsReadable rs
    → All (λ r. r.done ≡ false) rs
    → get_net_stats last.net_dev1 ≡ done stats
    → last.done ≡ true
    → let g : Globals = record {
      total_time = suc (length rs) % 2 ^ 64;
      snaps = newest no_amounts rs;
    } in
      (reports : List Report) × (print_my_status true start_globals (rs ++ last ∷ [])
        ≡ returned g reports (some (print_summary last.statistics g)))
      × (length reports ≡ length rs)
      × (total reports ≡ newest no_amounts rs)
unfolding print_my_status
print_my_status-totals rs last stats readable going reads stop =
    let (reports, run, count, sum) =
      status_loop-ends start_globals rs last stats zero-Fits readable going reads stop in
    (
      reports,
      rw (sym (zero-add (suc (length rs)))) run,
      count,
      sum ∙ deltas-start _ (newest-Fits _ rs zero-Fits),
    )

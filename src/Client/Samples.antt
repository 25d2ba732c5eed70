-- ===== src/Client/Samples.antt =====
-- Limits of the workloads for the runs.
use ycsb_c_cloud.Base.{true, [], ◌∷◌}
use ycsb_c_cloud.Numbers.{pos}
use ycsb_c_cloud.Workload.{Operation}
use ycsb_c_cloud.Workload.Samples.{whole}
use ycsb_c_cloud.Client.Ready.{Limits}

abbrev pub busy_limits : Limits whole
busy_limits = record {
  records = 3;
  low = 3;
  high = 3;
  first = 100;
  last = 100;
  shortest = 100;
  longest = 100;
  ordered = true;
  fields = pos 2;
  operations = (Operation.update, 5) ∷ [];
  total = 5;
}

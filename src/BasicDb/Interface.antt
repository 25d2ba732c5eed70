-- ===== src/BasicDb/Interface.antt =====
-- BasicDB as the database of a client.
use ycsb_c_cloud.Base.{◌≡◌, [], ◌++◌, refl}
use ycsb_c_cloud.Generators.Doubles.{Doubles}
use ycsb_c_cloud.Client.Ready.{Limits}
use ycsb_c_cloud.Client.Serving.{IsServing, IsThreaded}
use ycsb_c_cloud.Delegate.Load.{IsAccepting}
use ycsb_c_cloud.BasicDb.{basic_database, read_line, scan_line, update_line, insert_line}

-- What the theorems on clients assume of a database, BasicDB gives.
module _ {d : Doubles} (m : Limits d) where
  pub basic-IsServing : IsServing basic_database m (λ s. Unit) (λ status. status ≡ 0)
  basic-IsServing = record {
    reads =
        λ s table key fields good is_key. (0, [], s ++ read_line table key fields, refl, refl, tt);
    scans = λ s table key len fields good is_key.
        (0, [], s ++ scan_line table key len fields, refl, refl, tt);
    updates = λ s table key values good is_key fit.
        (0, s ++ update_line table key values, refl, refl, tt);
    inserts = λ s table key values good fit. (0, s ++ insert_line table key values, refl, refl, tt);
    times = λ s kind time good. tt;
  }

  pub basic-IsAccepting : IsAccepting basic_database m (λ k s. Unit)
  basic-IsAccepting = record {
    inserts = λ k s table values good fit. (s ++ insert_line table _ values, refl, tt);
    begins = λ k s good. tt;
    ends = λ k s good. tt;
  }

pub basic-IsThreaded : IsThreaded basic_database (λ s. Unit)
basic-IsThreaded = record {
  begins = λ s good. tt;
  ends = λ s good. tt;
  reports = λ s iops good. tt;
}

-- ===== src/DbOptions/Runs.antt =====
-- Runs of the option tables at concrete inputs.
use ycsb_c_cloud.Base.{◌*◌, ◌≡◌, refl, [], ◌∷◌, codes}
use ycsb_c_cloud.Numbers.{pos}
use ycsb_c_cloud.DbOptions.Samples.{numbers, plain_block, plain}
use ycsb_c_cloud.DbOptions.Tables.{gib, set_dboption, paths_of}

two_paths :
    (set_dboption numbers plain_block plain (pos 3)).db_paths
    ≡ (codes "/home/ubuntu/gp2_50g_1", 40 * gib) ∷ (codes "/home/ubuntu/gp3_100g_1", 200 * gib) ∷ []
unfolding set_dboption paths_of
two_paths = refl

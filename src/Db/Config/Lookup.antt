-- ===== src/Db/Config/Lookup.antt =====
-- What is read back from the table `config`.
use release_hub.Base.{String, List, [], ◌∷◌, some, ◌≡◌, refl, arith, eq_iff}
use release_hub.Result.{ok}
use release_hub.Db.{Database}
use release_hub.Db.Config.{config_value, config_put, get_config, set_config}

config_value-config_put :
    (key value : String) (config : List (String × String))
    → config_value key (config_put key value config) ≡ some value
unfolding config_value config_put
config_value-config_put key value [] = ground (arith, eq_iff key key)
config_value-config_put key value ((k, v) ∷ rest) =
    ground (arith, eq_iff key key, config_value-config_put key value rest)

pub get_config-set_config :
    (key value : String) (db : Database) → get_config key (set_config key value db).1 ≡ ok value
unfolding get_config set_config
get_config-set_config key value db = rw (config_value-config_put key value db.config) refl

-- ===== src/Configuration/Global.antt =====
-- class GlobalConfig: software/libstf/configuration.hpp lines 53-102 and configuration.cpp lines
-- 65-96. The list of the configuration blocks of a device, and the shared map of those in use.
pub mod Discovery
use libstf.Base.{
  ℕ, zero, suc, ◌+◌, ◌-◌, ◌%◌, ◌^◌, Bool, true, false, ◌||◌, not, Option, none, some, List, [], ◌∷◌,
  ◌++◌, ltb, ◌==◌, if◌then◌else◌, get_or,
}
use libstf.Base.Word.{u32_mod, wrap_add, wrap_sub}
use libstf.Base.Action.{
  Action, Result, ok, err, runtime_error, assertion_failed, ◌>>=◌, ◌>>◌, pure, lift, ensure,
}
use libstf.Coyote.{CThread}
use libstf.Configuration.{Config, ConfigRegister, read_register}

-- The members but the thread; `configs` maps the identifier of a block to its registers.
pub record GlobalConfig : Type 0 where
  pub system_id : ℕ
  pub num_configs : ℕ
  pub config_ids : List ℕ
  pub config_bounds : List ℕ
  pub configs : List (ℕ × Config)

-- `Config(cthread, 0, -1)`
abbrev pub whole_device : Config
whole_device = record { addr_offset = 0; num_regs = u32_mod - 1 }

-- `std::find`: the position of an identifier.
abbrev pub index_of : ℕ → List ℕ → Option ℕ
index_of id [] = none
index_of id (x ∷ xs) =
    if x == id then some 0 else elim (index_of id xs) [ none ↦ none | some i ↦ some (suc i) ]

unfoldable pub has_config : ℕ → GlobalConfig → Bool
has_config id g = elim (index_of id g.config_ids) [ none ↦ false | some _ ↦ true ]

-- The body of the loop of the constructor, at index i.
unfoldable pub add_config : ℕ → GlobalConfig → Action CThread GlobalConfig
add_config i g = do
  bound ← read_register whole_device (wrap_add u32_mod 2 i)
  let g' : GlobalConfig = record g {
    config_bounds = g.config_bounds ++ (bound.value % u32_mod) ∷ [];
  }
  id ← read_register whole_device (get_or g'.config_bounds i 0)
  ensure (not (has_config id.value g'))
  pure (record g' { config_ids = g'.config_ids ++ id.value ∷ [] })

-- The loop, by the rounds that are left.
unfoldable pub add_configs : ℕ → ℕ → GlobalConfig → Action CThread GlobalConfig
add_configs zero i g = pure g
add_configs (suc rounds) i g = do g' ← add_config i g; add_configs rounds (i + 1) g'

unfoldable pub global_config : Action CThread GlobalConfig
global_config = do
  system ← read_register whole_device 0
  configs ← read_register whole_device 1
  let n = configs.value % u32_mod
  add_configs n 0 (record {
    system_id = system.value;
    num_configs = n;
    config_ids = [];
    config_bounds = wrap_add u32_mod 2 n ∷ [];
    configs = [];
  })

unfoldable pub get_config_bounds : ℕ → GlobalConfig → Result (ℕ × ℕ)
get_config_bounds id g = elim (index_of id g.config_ids) [
  | none ↦ err assertion_failed
  | some i ↦ ok (get_or g.config_bounds i 0, get_or g.config_bounds (suc i) 0)
]

abbrev pub find_config : ℕ → List (ℕ × Config) → Option Config
find_config id [] = none
find_config id ((k, c) ∷ cs) = if k == id then some c else find_config id cs

-- `get_config<T>` for a T with this identifier: the registers of the block. What the constructor of T
-- reads from them is in the parent module.
unfoldable pub get_config : ℕ → Action GlobalConfig Config
get_config id g = elim (find_config id g.configs) [
  | some c ↦ (ok c, g)
  | none ↦ if not (has_config id g) then (err runtime_error, g) else elim (get_config_bounds id g) [
    | err e ↦ (err e, g)
    | ok bounds ↦
        let c : Config = record {
          addr_offset = bounds.0;
          num_regs = wrap_sub u32_mod bounds.1 bounds.0;
        } in
        (ok c, record g { configs = (id, c) ∷ g.configs })
  ]
]

-- `get_config<T>()` of a GlobalConfig that is in use, for the block with this identifier, before the
-- constructor of T.
abbrev pub look_up : ℕ → GlobalConfig → Action CThread (Config × GlobalConfig)
look_up id g = let (r, g') = get_config id g in lift r >>= λ c. pure (c, g')

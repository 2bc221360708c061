-- ===== src/Configuration/Global/Discovery.antt =====
-- What GlobalConfig finds on a device (software/libstf/configuration.cpp lines 69-96 and
-- configuration.hpp lines 74-93).
use libstf.Base.{
  ℕ, zero, suc, ◌+◌, ◌-◌, ◌%◌, ◌<◌, ◌≡◌, refl, ap, sym, ◌∙◌, true, none, some, List, [], ◌∷◌, ◌++◌,
  arith, length, length-append, get_or, dec_lt, lt→ltb, ne→==, ◌≢◌,
}
use libstf.Base.Word.{u32_mod, wrap_add}
use libstf.Base.Action.{ok, >>=-ok}
use libstf.Coyote.{CThread}
use libstf.Configuration.{read_register}
use libstf.Configuration.Global.{
  GlobalConfig, index_of, has_config, add_config, add_configs, global_config, get_config_bounds,
}

index_of-append_old :
    (id x k : ℕ) (xs : List ℕ) → index_of id xs ≡ some k → index_of id (xs ++ x ∷ []) ≡ some k
index_of-append_old id x k [] e = cc
index_of-append_old id x zero (y ∷ xs) e = ground arith
index_of-append_old id x (suc k) (y ∷ xs) e = ground (arith, index_of-append_old id x k xs)

index_of-append_new :
    (id : ℕ) (xs : List ℕ) → index_of id xs ≡ none → index_of id (xs ++ id ∷ []) ≡ some (length xs)
index_of-append_new id [] e = ground arith
index_of-append_new id (y ∷ xs) e = ground (arith, index_of-append_new id xs)

get_or-append_left :
    (xs ys : List ℕ) (i d : ℕ) → i < length xs → get_or (xs ++ ys) i d ≡ get_or xs i d
get_or-append_left [] ys i d h = elim h [ ]
get_or-append_left (x ∷ xs) ys zero d h = refl
get_or-append_left (x ∷ xs) ys (suc i) d h = get_or-append_left xs ys i d (omega arith)

get_or-append_end : (xs : List ℕ) (x d i : ℕ) → i ≡ length xs → get_or (xs ++ x ∷ []) i d ≡ x
get_or-append_end [] x d zero h = refl
get_or-append_end [] x d (suc i) h = absurd (omega arith)
get_or-append_end (y ∷ xs) x d zero h = absurd (omega arith)
get_or-append_end (y ∷ xs) x d (suc i) h = get_or-append_end xs x d i (omega arith)

-- The start of the block at an index: behind the table, and then where the table says.
abbrev pub start : (ℕ → ℕ) → ℕ → ℕ → ℕ
start csr n zero = wrap_add u32_mod 2 n
start csr n (suc i) = csr (wrap_add u32_mod 2 i) % u32_mod

-- After i rounds the lists hold the first i blocks of the device.
record Found (csr : ℕ → ℕ) (n i : ℕ) (g : GlobalConfig) : Type 0 where
  bounds : length g.config_bounds ≡ suc i
  ids : length g.config_ids ≡ i
  starts : (k : ℕ) → k < suc i → get_or g.config_bounds k 0 ≡ start csr n k
  found : (k : ℕ) → k < i → index_of (csr (start csr n k)) g.config_ids ≡ some k
  listed : (k : ℕ) → k < i → get_or g.config_ids k 0 ≡ csr (start csr n k)

abbrev next_bounds : (ℕ → ℕ) → ℕ → GlobalConfig → List ℕ
next_bounds csr i g = g.config_bounds ++ (csr (wrap_add u32_mod 2 i) % u32_mod) ∷ []

abbrev next_id : (ℕ → ℕ) → ℕ → GlobalConfig → ℕ
next_id csr i g = csr (get_or (next_bounds csr i g) i 0)

-- A round in the address space, with a new identifier, adds the next bound and the identifier.
add_config_new :
    (i : ℕ) (g : GlobalConfig) (t : CThread)
    → wrap_add u32_mod 2 i < u32_mod - 1
    → get_or (next_bounds t.get_csr i g) i 0 < u32_mod - 1
    → index_of (next_id t.get_csr i g) g.config_ids ≡ none
    → add_config i g t ≡ (
      ok (record g {
        config_bounds = next_bounds t.get_csr i g;
        config_ids = g.config_ids ++ next_id t.get_csr i g ∷ [];
      }),
      t,
    )
unfolding add_config read_register has_config
add_config_new i g t ha hb new =
    let a = wrap_add u32_mod 2 i in
    let b = get_or (next_bounds t.get_csr i g) i 0 in
    let ea : wrap_add u32_mod 0 a ≡ a = omega arith in
    let eb : wrap_add u32_mod 0 b ≡ b = omega arith in
    rw (lt→ltb a (u32_mod - 1) ha, ea) (rw (lt→ltb b (u32_mod - 1) hb, eb) (rw (new, has_config)))

-- An identifier that no entry has is not found.
index_of-none :
    (id : ℕ) (xs : List ℕ) → ((k : ℕ) → k < length xs → get_or xs k 0 ≢ id) → index_of id xs ≡ none
index_of-none id [] h = refl
index_of-none id (x ∷ xs) h =
    rw (ne→== x id (h 0 (omega arith)), index_of-none id xs (λ k l. h (suc k) (omega arith)))

-- A device with n blocks: the table and the blocks lie in the address space, and the identifiers
-- differ.
pub record IsDevice (csr : ℕ → ℕ) (n : ℕ) : Type 0 where
  pub number : csr 1 % u32_mod ≡ n
  pub table : n + 2 < u32_mod - 1
  pub blocks : (k : ℕ) → k < n → start csr n k < u32_mod - 1
  pub distinct : (j k : ℕ) → j < k → k < n → csr (start csr n j) ≢ csr (start csr n k)

module _ (csr : ℕ → ℕ) (n : ℕ) (device : IsDevice csr n) where
  next_id-start :
      (i : ℕ) (g : GlobalConfig) → Found csr n i g → next_id csr i g ≡ csr (start csr n i)
  next_id-start i g f = ap csr (
      get_or-append_left g.config_bounds _ i 0 (omega (arith, f.bounds)) ∙ f.starts i (omega arith))

  new_id :
      (i : ℕ) (g : GlobalConfig)
      → i < n
      → Found csr n i g
      → index_of (next_id csr i g) g.config_ids ≡ none
  new_id i g h f = index_of-none _ g.config_ids λ k l e.
      device.distinct k i (omega (arith, f.ids)) h
        (sym (f.listed k (omega (arith, f.ids))) ∙ e ∙ next_id-start i g f)

  next-Found :
      (i : ℕ) (g : GlobalConfig)
      → i < n
      → Found csr n i g
      → Found csr n (suc i) (record g {
        config_bounds = next_bounds csr i g;
        config_ids = g.config_ids ++ next_id csr i g ∷ [];
      })
  next-Found i g h f = record {
    bounds = omega (
      arith,
      length-append {0} g.config_bounds ((csr (wrap_add u32_mod 2 i) % u32_mod) ∷ []),
      f.bounds,
    );
    ids = omega (arith, length-append {0} g.config_ids (next_id csr i g ∷ []), f.ids);
    starts = λ k l. elim (dec_lt k (suc i)) [
      | yes old ↦
          get_or-append_left g.config_bounds _ k 0 (omega (arith, f.bounds)) ∙ f.starts k old
      | no new ↦
          let e : k ≡ suc i = omega arith in
          rw e (get_or-append_end g.config_bounds _ 0 (suc i) (sym f.bounds))
    ];
    found = λ k l. elim (dec_lt k i) [
      | yes old ↦ index_of-append_old _ _ k g.config_ids (f.found k old)
      | no new ↦
          let e : k ≡ i = omega arith in
          rw e (
            ap (λ (z : ℕ). index_of z (g.config_ids ++ next_id csr i g ∷ []))
              (sym (next_id-start i g f))
            ∙ index_of-append_new _ g.config_ids (new_id i g h f)
            ∙ ap some f.ids)
    ];
    listed = λ k l. elim (dec_lt k i) [
      | yes old ↦ get_or-append_left g.config_ids _ k 0 (omega (arith, f.ids)) ∙ f.listed k old
      | no new ↦
          let e : k ≡ i = omega arith in
          rw e (get_or-append_end g.config_ids _ 0 i (sym f.ids) ∙ next_id-start i g f)
    ];
  }

module _ (t : CThread) (n : ℕ) (device : IsDevice t.get_csr n) where
  add_config-Found :
      (i : ℕ) (g : GlobalConfig)
      → i < n
      → Found t.get_csr n i g
      → (g' : GlobalConfig) × (add_config i g t ≡ (ok g', t)) × Found t.get_csr n (suc i) g'
  add_config-Found i g h f =
      let at_start : get_or (next_bounds t.get_csr i g) i 0 ≡ start t.get_csr n i =
        get_or-append_left g.config_bounds _ i 0 (omega (arith, f.bounds))
        ∙ f.starts i (omega arith) in
      (
        record g {
          config_bounds = next_bounds t.get_csr i g;
          config_ids = g.config_ids ++ next_id t.get_csr i g ∷ [];
        },
        add_config_new i g t (omega (arith, device.table))
            (omega (arith, at_start, device.blocks i h)) (new_id t.get_csr n device i g h f),
        next-Found t.get_csr n device i g h f,
      )

  add_configs-Found :
      (rounds i : ℕ) (g : GlobalConfig)
      → i + rounds ≡ n
      → Found t.get_csr n i g
      → (g' : GlobalConfig) × (add_configs rounds i g t ≡ (ok g', t)) × Found t.get_csr n n g'
  unfolding add_configs
  add_configs-Found zero i g h f = let j : i ≡ n = omega arith in (g, refl, rw j at f)
  add_configs-Found (suc rounds) i g h f =
      let (g', once, f') = add_config-Found i g (omega arith) f in
      let more : i + 1 ≡ suc i = omega arith in
      let (g'', rest, f'') = add_configs-Found rounds (suc i) g' (omega arith) f' in
      (
        g'',
        >>=-ok (add_config i g) (add_configs rounds (i + 1)) t once
            ∙ ap (λ (k : ℕ). add_configs rounds k g' t) more
            ∙ rest,
        f'',
      )

-- On such a device the constructor returns and changes nothing; then each block is found, and its
-- bounds are its start and the start of the next one.
pub global_config_blocks :
    (n : ℕ) (t : CThread)
    → IsDevice t.get_csr n
    → (g : GlobalConfig) × (global_config t ≡ (ok g, t))
      × ((k : ℕ)
          → k < n
          → (has_config (t.get_csr (start t.get_csr n k)) g ≡ true)
            × (get_config_bounds (t.get_csr (start t.get_csr n k)) g
                ≡ ok (start t.get_csr n k, start t.get_csr n (suc k))))
unfolding global_config read_register has_config get_config_bounds
global_config_blocks n t device =
    let first : GlobalConfig = record {
      system_id = t.get_csr 0;
      num_configs = n;
      config_ids = [];
      config_bounds = wrap_add u32_mod 2 n ∷ [];
      configs = [];
    } in
    let none_yet : Found t.get_csr n 0 first = record {
      bounds = refl;
      ids = refl;
      starts = λ k l. let e : k ≡ 0 = omega arith in rw e;
      found = λ k l. elim l [ ];
      listed = λ k l. elim l [ ];
    } in
    let (g, returns, f) = add_configs-Found t n device n 0 first (omega arith) none_yet in
    (
      g,
      rw device.number returns,
      λ k l. (
        rw (f.found k l, has_config),
        rw (
          f.found k l,
          get_config_bounds,
          f.starts k (omega arith),
          f.starts (suc k) (omega arith),
        ),
      ),
    )

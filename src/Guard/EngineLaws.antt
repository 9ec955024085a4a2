-- ===== src/Guard/EngineLaws.antt =====
-- Guard/Engine: what the guard has seen when it counts as armed, and which calls a change has to get
-- through.
use pokrov_app.Runtime.Types.{result}
use pokrov_app.Guard.Types.{
  remove_commit, install_commit, remove_apply, install_apply, GuardStage, is_armed_state,
}
use pokrov_app.Guard.Filters.{
  SubLayer, filter_count, layers, matches_sub_layer, Layer, can_override_guard,
  is_potential_guard_override, Filter, Identity, filter_at, matches,
}
use pokrov_app.Base.{
  text, ◌↔◌, List, [], is_empty, ◌∷◌, &&-left, &&-right, ◌&&◌, Bool, arith, false, inl, inr, refl,
  subst, suc, true, zero, ◌+◌, ◌<◌, ◌≡◌, ◌⊎◌, ℕ,
}
use pokrov_app.Guard.Engine.{
  remove, install, complete, replace_objects, add_filters, delete_filters, deleted_code,
  delete_owned, read_objects, verify_guard_priority, verify_objects, read, Changes, Page,
  scan_filter, scan_filters, scan_pages, verify_layers, Answer, Engine, read_filters, found,
  not_found, failed,
}

Answer-cases {ℓ} :
    {A : Type ℓ} (a : Answer A)
    → ((x : A) × (a ≡ found x)) ⊎ ((a ≡ not_found) ⊎ ((c : ℕ) × (a ≡ failed c)))
Answer-cases (found x) = inl (x, refl)
Answer-cases not_found = inr (inl refl)
Answer-cases (failed c) = inr (inr (c, refl))

module _ (w : Engine) where
  -- The engine holds the guard's filter `i` as it was installed.
  abbrev pub Holds : Identity → ℕ → Type 0
  Holds id i =
      (actual : Filter) × (w.own_filter i ≡ found actual) × (matches actual (filter_at id i) ≡ true)

  Holds-shift :
      (id : Identity) (rounds index : ℕ)
      → Holds id index
      → ((k : ℕ) → k < rounds → Holds id (index + 1 + k))
      → (k : ℕ) → k < suc rounds
      → Holds id (index + k)
  Holds-shift id rounds index h hs zero l = subst (λ i. Holds id i) (omega arith) h
  Holds-shift id rounds index h hs (suc k) l =
      subst (λ i. Holds id i) (omega arith) (hs k (omega arith))

  pub read_filters-Holds :
      (id : Identity) (rounds index : ℕ) (any whole : Bool)
      → (read_filters w id rounds index any whole).0 ≡ 0
      → (read_filters w id rounds index any whole).2 ≡ true
      → (whole ≡ true) × ((k : ℕ) → k < rounds → Holds id (index + k))
  unfolding read_filters
  read_filters-Holds id zero index any whole e c = (c, λ k l. absurd (omega arith))
  read_filters-Holds id (suc rounds) index any whole e c =
      elim (Answer-cases (w.own_filter index)) [
        | inl (x, h) ↦
            let (b, hs) =
              read_filters-Holds id rounds (index + 1) true
                (matches x (filter_at id index) && whole) (rw (h, read_filters) at e)
                (rw (h, read_filters) at c) in
            (&&-right _ whole b, Holds-shift id rounds index (x, h, &&-left _ whole b) hs)
        | inr (inl h) ↦
            let (b, hs) =
              (read_filters-Holds id rounds (index + 1) any false (rw (h, read_filters) at e)
                (rw (h, read_filters) at c)) in
            cc
        | inr (inr (code, h)) ↦ (let e' = rw (h, read_filters) at e in absurd (omega arith))
      ]

module _ (w : Engine) (guard_weight : ℕ) (service_permit : Filter) where
  -- A filter that could override the guard has a known sublayer, in which it does not.
  abbrev pub IsHarmless : Filter → Type 0
  IsHarmless f =
      is_potential_guard_override f ≡ true
      → (w.sub_layer_weight f.sub_layer_key).0 ≡ 0
        × (can_override_guard f (w.sub_layer_weight f.sub_layer_key).1 guard_weight service_permit
            ≡ false)

  abbrev pub AllHarmless : List Filter → Type 0
  AllHarmless [] = Unit
  AllHarmless (f ∷ fs) = IsHarmless f × AllHarmless fs

  -- The filters that an enumeration gives before its empty page.
  abbrev pub EachHarmless : List Page → Type 0
  EachHarmless [] = Unit
  EachHarmless (page ∷ pages) =
      AllHarmless page.filters × (is_empty page.filters ≡ false → EachHarmless pages)

  abbrev pub NoOverride : List Layer → Type 0
  NoOverride [] = Unit
  NoOverride (layer ∷ rest) = EachHarmless (w.listing layer).pages × NoOverride rest

  scan_filter-IsHarmless :
      (f : Filter)
      → (scan_filter w guard_weight service_permit f).0 ≡ 0
      → (scan_filter w guard_weight service_permit f).1 ≡ false
      → IsHarmless f
  unfolding scan_filter
  scan_filter-IsHarmless f e c p = (ground arith, ground arith)

  scan_filters-AllHarmless :
      (fs : List Filter)
      → (scan_filters w guard_weight service_permit fs).0 ≡ 0
      → (scan_filters w guard_weight service_permit fs).1 ≡ false
      → AllHarmless fs
  scan_filters-AllHarmless [] e c = tt
  scan_filters-AllHarmless (f ∷ fs) e c = (
    scan_filter-IsHarmless f (ground arith) (ground arith),
    scan_filters-AllHarmless fs (ground arith) (ground arith),
  )

  scan_pages-EachHarmless :
      (pages : List Page)
      → (scan_pages w guard_weight service_permit pages).0 ≡ 0
      → (scan_pages w guard_weight service_permit pages).1 ≡ false
      → EachHarmless pages
  scan_pages-EachHarmless [] e c = tt
  scan_pages-EachHarmless (page ∷ pages) e c = (
    scan_filters-AllHarmless page.filters (ground arith) (ground arith),
    λ full. scan_pages-EachHarmless pages (ground arith) (ground arith),
  )

  verify_layers-NoOverride :
      (ls : List Layer)
      → (verify_layers w guard_weight service_permit ls).0 ≡ 0
      → (verify_layers w guard_weight service_permit ls).1 ≡ true
      → NoOverride ls
  verify_layers-NoOverride [] e s = tt
  verify_layers-NoOverride (l ∷ ls) e s = (
    scan_pages-EachHarmless (w.listing l).pages (ground arith) (ground arith),
    verify_layers-NoOverride ls (ground arith) (ground arith),
  )

verify_objects-armed :
    (w : Engine) (id : Identity) (guard_weight : ℕ) (any : Bool)
    → is_empty (verify_objects w id guard_weight any).0 ≡ true
    → is_armed_state (verify_objects w id guard_weight any).2 ≡ true
    → NoOverride w guard_weight (filter_at id 0) layers
unfolding verify_objects verify_guard_priority
verify_objects-armed w id guard_weight any e a =
    verify_layers-NoOverride w guard_weight (filter_at id 0) layers (ground arith) (ground arith)

read_objects-armed :
    (w : Engine) (id : Identity) (guard_weight : ℕ) (any whole : Bool)
    → is_empty (read_objects w id guard_weight any whole).0 ≡ true
    → is_armed_state (read_objects w id guard_weight any whole).2 ≡ true
    → (whole ≡ true)
      × ((i : ℕ) → i < filter_count → Holds w id i)
      × NoOverride w guard_weight (filter_at id 0) layers
unfolding read_objects
read_objects-armed w id guard_weight any whole e a =
    let seen = read_filters w id filter_count 0 any whole in
    let (b, hs) = read_filters-Holds w id filter_count 0 any whole (ground arith) (ground arith) in
    (
      b,
      (λ k l. subst (λ i. Holds w id i) (omega arith) (hs k l)),
      verify_objects-armed w id guard_weight seen.1 (ground arith) (ground arith),
    )

-- A `Read` that gives `armed` and no error has seen an engine that answered every call, the guard's
-- sublayer and each of its filters as installed, and no foreign filter that could override them in
-- any of the four protected layers.
pub read-armed :
    (w : Engine)
    → is_empty (read w).0 ≡ true
    → is_armed_state (read w).2 ≡ true
    → (w.open_code ≡ 0)
      × (w.identity.0 ≡ 0)
      × (w.begin_code ≡ 0)
      × ((layer : SubLayer) × (w.own_sub_layer ≡ found layer)
          × (matches_sub_layer layer ≡ true)
          × ((i : ℕ) → i < filter_count → Holds w w.identity.1 i)
          × NoOverride w layer.weight (filter_at w.identity.1 0) layers)
unfolding read
read-armed w e a = elim (Answer-cases w.own_sub_layer) [
  | inl (layer, h) ↦
      let (b, hs, o) =
        read_objects-armed w w.identity.1 layer.weight true (matches_sub_layer layer) (ground arith)
          (ground arith) in
      (ground arith, ground arith, ground arith, (layer, h, b, hs, o))
  | inr (inl h) ↦
      let (b, hs, o) =
        read_objects-armed w w.identity.1 0 false false (ground arith) (ground arith) in
      cc
  | inr (inr (code, h)) ↦ absurd (ground arith)
]

-- The calls that a change of the guard's objects has to get through, each with the code 0. An object
-- that is not there counts as deleted.
abbrev pub Deletes : Changes → Type 0
Deletes c =
    ((i : ℕ) → i < filter_count → deleted_code (c.delete_filter i) ≡ 0)
    × (deleted_code c.delete_sub_layer ≡ 0)

abbrev pub Installs : Changes → Type 0
Installs c =
    (c.open_code ≡ 0)
    × (c.identity_code ≡ 0)
    × (c.begin_code ≡ 0)
    × Deletes c
    × (c.add_sub_layer ≡ 0)
    × ((i : ℕ) → i < filter_count → c.add_filter i ≡ 0)
    × (c.commit ≡ 0)

abbrev pub Removes : Changes → Type 0
Removes c = (c.open_code ≡ 0) × (c.begin_code ≡ 0) × Deletes c × (c.commit ≡ 0)

-- A call for each of the filters from `index` on, as the first and the others.
each-shift :
    (code : ℕ → ℕ) (rounds index : ℕ)
    → code index ≡ 0
    → ((k : ℕ) → k < rounds → code (index + 1 + k) ≡ 0)
    → (k : ℕ) → k < suc rounds
    → code (index + k) ≡ 0
each-shift code rounds index h hs zero l = subst (λ i. code i ≡ 0) (omega arith) h
each-shift code rounds index h hs (suc k) l =
    subst (λ i. code i ≡ 0) (omega arith) (hs k (omega arith))

each-tail :
    (code : ℕ → ℕ) (rounds index : ℕ)
    → ((k : ℕ) → k < suc rounds → code (index + k) ≡ 0)
    → (k : ℕ) → k < rounds
    → code (index + 1 + k) ≡ 0
each-tail code rounds index hs k l =
    subst (λ i. code i ≡ 0) (omega arith) (hs (suc k) (omega arith))

each-head :
    (code : ℕ → ℕ) (rounds index : ℕ)
    → ((k : ℕ) → k < suc rounds → code (index + k) ≡ 0)
    → code index ≡ 0
each-head code rounds index hs = subst (λ i. code i ≡ 0) (omega arith) (hs zero (omega arith))

module _ (c : Changes) where
  delete_filters-zero :
      (rounds index : ℕ)
      → delete_filters c rounds index ≡ 0
      → ((k : ℕ) → k < rounds → deleted_code (c.delete_filter (index + k)) ≡ 0)
        × (deleted_code c.delete_sub_layer ≡ 0)
  delete_filters-zero zero index e = (λ k l. absurd (omega arith), e)
  delete_filters-zero (suc rounds) index e =
      let code : ℕ → ℕ = λ i. deleted_code (c.delete_filter i) in
      let first : code index ≡ 0 = ground arith in
      let (others, layer) = delete_filters-zero rounds (index + 1) (ground arith) in
      (each-shift code rounds index first others, layer)

  delete_filters-succeeds :
      (rounds index : ℕ)
      → ((k : ℕ) → k < rounds → deleted_code (c.delete_filter (index + k)) ≡ 0)
      → deleted_code c.delete_sub_layer ≡ 0
      → delete_filters c rounds index ≡ 0
  delete_filters-succeeds zero index hs layer = layer
  delete_filters-succeeds (suc rounds) index hs layer =
      let code : ℕ → ℕ = λ i. deleted_code (c.delete_filter i) in
      let first : code index ≡ 0 = each-head code rounds index hs in
      let others =
        delete_filters-succeeds rounds (index + 1) (each-tail code rounds index hs) layer in
      rw first others

  add_filters-zero :
      (rounds index : ℕ)
      → add_filters c rounds index ≡ 0
      → (k : ℕ) → k < rounds
      → c.add_filter (index + k) ≡ 0
  unfolding add_filters
  add_filters-zero zero index e = λ k l. absurd (omega arith)
  add_filters-zero (suc rounds) index e =
      let first : c.add_filter index ≡ 0 = ground arith in
      each-shift (c.add_filter) rounds index first
        (add_filters-zero rounds (index + 1) (ground arith))

  add_filters-succeeds :
      (rounds index : ℕ)
      → ((k : ℕ) → k < rounds → c.add_filter (index + k) ≡ 0)
      → add_filters c rounds index ≡ 0
  unfolding add_filters
  add_filters-succeeds zero index hs = refl
  add_filters-succeeds (suc rounds) index hs =
      let first : c.add_filter index ≡ 0 = each-head (c.add_filter) rounds index hs in
      let others =
        add_filters-succeeds rounds (index + 1) (each-tail (c.add_filter) rounds index hs) in
      rw first others

  delete_owned_iff : (delete_owned c ≡ 0) ↔ Deletes c
  unfolding delete_owned
  delete_owned_iff =
      let code : ℕ → ℕ = λ i. deleted_code (c.delete_filter i) in
      (
        λ e.
            let (hs, layer) = delete_filters-zero filter_count 0 e in
            (λ i l. subst (λ n. code n ≡ 0) (omega arith) (hs i l), layer),
        λ h.
            delete_filters-succeeds filter_count 0
              (λ k l. subst (λ n. code n ≡ 0) (omega arith) (h.0 k l)) h.1,
      )

  add_filters_iff :
      (add_filters c filter_count 0 ≡ 0) ↔ ((i : ℕ) → i < filter_count → c.add_filter i ≡ 0)
  add_filters_iff = (
    λ e i l. subst (λ n. c.add_filter n ≡ 0) (omega arith) (add_filters-zero filter_count 0 e i l),
    λ h.
        add_filters-succeeds filter_count 0
          (λ k l. subst (λ n. c.add_filter n ≡ 0) (omega arith) (h k l)),
  )

  complete_iff :
      (result : ℕ) (error : List ℕ) (s t : GuardStage)
      → is_empty error ≡ false
      → (is_empty (complete c result error s t).0 ≡ true) ↔ ((result ≡ 0) × (c.commit ≡ 0))
  unfolding complete
  complete_iff result error s t h = (λ e. (ground arith, ground arith), λ (r, m). ground arith)

  replace_objects_iff :
      (replace_objects c ≡ 0)
      ↔ ((delete_owned c ≡ 0) × (c.add_sub_layer ≡ 0) × (add_filters c filter_count 0 ≡ 0))
  unfolding replace_objects
  replace_objects_iff = (λ e. (ground arith, ground arith, ground arith), λ (d, l, f). ground arith)

  install_iff : (is_empty (install c).0 ≡ true) ↔ Installs c
  unfolding install
  install_iff =
      let done =
        complete_iff (replace_objects c) (text "transition_guard_install_failed") install_apply
          install_commit refl in
      (
        λ e.
            let (applied, committed) = done.0 (ground arith) in
            let (deleted, layer, added) = replace_objects_iff.0 applied in
            (
              ground arith,
              ground arith,
              ground arith,
              delete_owned_iff.0 deleted,
              layer,
              add_filters_iff.0 added,
              committed,
            ),
        λ h.
            let applied : replace_objects c ≡ 0 =
              replace_objects_iff.1 (delete_owned_iff.1 h.3, h.4, add_filters_iff.1 h.5) in
            let fine = done.1 (applied, h.6) in simp (install, h.0, h.1, h.2) fine,
      )

  remove_iff : (is_empty (remove c).0 ≡ true) ↔ Removes c
  unfolding remove
  remove_iff =
      let done =
        complete_iff (delete_owned c) (text "transition_guard_remove_failed") remove_apply
          remove_commit refl in
      (
        λ e.
            let (applied, committed) = done.0 (ground arith) in
            (ground arith, ground arith, delete_owned_iff.0 applied, committed),
        λ h. let fine = done.1 (delete_owned_iff.1 h.2, h.3) in simp (remove, h.0, h.1) fine,
      )

-- `Install` reports no error exactly if the engine opened, the service was identified, the transaction
-- began, every own filter and the sublayer were deleted or absent, the sublayer and every filter were
-- added, and the commit succeeded; `Remove` exactly if the engine opened, the transaction began, the
-- same was deleted, and the commit succeeded.
pub install-commits :
    (c : Changes)
    → ((is_empty (install c).0 ≡ true) ↔ Installs c) × ((is_empty (remove c).0 ≡ true) ↔ Removes c)
install-commits c = (install_iff c, remove_iff c)

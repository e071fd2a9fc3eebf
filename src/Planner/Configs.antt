-- ===== src/Planner/Configs.antt =====
-- What planner.go accepts as a configuration, and the bounds of what it scores.
use worms_ng.Prelude.{
  Bool-cases, ap, arith, eq_ℤ, eq_ℤ_iff, false, if_elim, if◌then◌else◌, inl, inr, ltb_ℤ, not, pos,
  refl, str_eq, str_eq_iff, subst, sym, true, ◌&&◌, ◌||◌, ◌≡◌, ◌≤ℤ◌, ◌⊎◌,
}
use worms_ng.Planner.{
  Capabilities, Config, Normalized, faulty, fill_config, no_weights, normal, normalize, normalized,
  settle_config,
}

-- A configuration that a planner holds.
pub IsNormal : Config → Type 0
IsNormal c =
    (c.version ≡ pos 1)
    × ((c.mode ≡ "greedy") × (c.depth ≡ pos 1)
        ⊎ (c.mode ≡ "lookahead") × (pos 1 ≤ℤ c.depth) × (c.depth ≤ℤ pos 8))
    × (no_weights c ≡ false)
    × ((c.capabilities.observation ≡ "local")
        ⊎ (c.capabilities.observation ≡ "global") × (c.capabilities.global_state ≡ true))

abbrev Fine : Normalized → Type 0
Fine (normal n) = IsNormal n
Fine (faulty fault) = Unit

weights : (c : Config) → no_weights (settle_config c) ≡ false
unfolding settle_config
weights c = elim (Bool-cases (no_weights c)) [ inl blank ↦ rw blank refl | inr set ↦ rw set set ]

settled_mode :
    (c : Config)
    → (not (str_eq c.mode "greedy") && not (str_eq c.mode "lookahead")) ≡ false
    → (ltb_ℤ c.depth (pos 1) || ltb_ℤ (pos 8) c.depth) ≡ false
    → ((settle_config c).mode ≡ "greedy") × ((settle_config c).depth ≡ pos 1)
      ⊎ ((settle_config c).mode ≡ "lookahead")
        × (pos 1 ≤ℤ (settle_config c).depth)
        × ((settle_config c).depth ≤ℤ pos 8)
unfolding settle_config
settled_mode c mode depth = elim (Bool-cases (str_eq c.mode "greedy")) [
  | inl greedy ↦ inl ((str_eq_iff _ _).0 greedy, rw greedy refl)
  | inr other ↦
      inr ((str_eq_iff _ _).0 (ground arith), rw other (ground arith), rw other (ground arith))
]

settled_version :
    (c : Config) → not (eq_ℤ c.version (pos 1)) ≡ false → (settle_config c).version ≡ pos 1
unfolding settle_config
settled_version c h = (eq_ℤ_iff c.version (pos 1)).0 (ground arith)

sees_all :
    (c : Capabilities)
    → str_eq (normalized c).observation "global" ≡ true
    → (normalized c).global_state ≡ true
unfolding normalized
sees_all c h = rw h refl

settled_view :
    (c : Capabilities)
    → (not (str_eq (normalized c).observation "local")
        && not (str_eq (normalized c).observation "global"))
      ≡ false
    → ((normalized c).observation ≡ "local")
      ⊎ ((normalized c).observation ≡ "global") × ((normalized c).global_state ≡ true)
settled_view c h = elim (Bool-cases (str_eq (normalized c).observation "local")) [
  | inl here ↦ inl ((str_eq_iff _ _).0 here)
  | inr far ↦
      let all : str_eq (normalized c).observation "global" ≡ true = ground arith in
      inr ((str_eq_iff _ _).0 all, sees_all c all)
]

normalize-Fine : (c : Config) → Fine (normalize c)
unfolding normalize IsNormal normalized settle_config
normalize-Fine c =
    let f = fill_config c in
    let n = settle_config f in
    if_elim Fine (not (eq_ℤ f.version (pos 1))) (λ e. tt)
      (λ version.
        if_elim Fine (not (str_eq f.mode "greedy") && not (str_eq f.mode "lookahead")) (λ e. tt)
          (λ mode.
            if_elim Fine (ltb_ℤ f.depth (pos 1) || ltb_ℤ (pos 8) f.depth) (λ e. tt)
              (λ depth.
                if_elim Fine
                  (not (str_eq n.capabilities.observation "local")
                    && not (str_eq n.capabilities.observation "global"))
                  (λ e. tt)
                  (λ view. (
                    settled_version f version,
                    settled_mode f mode depth,
                    weights f,
                    settled_view f.capabilities view,
                  )))))

-- What is filled or settled of a normal configuration is there already.
filled :
    (c : Config)
    → eq_ℤ c.version (pos 0) ≡ false
    → str_eq c.mode "" ≡ false
    → eq_ℤ c.depth (pos 0) ≡ false
    → fill_config c ≡ c
unfolding fill_config
filled c v m d = rw v (rw m (rw d refl))

settled :
    (c : Config)
    → (if str_eq c.mode "greedy" then pos 1 else c.depth) ≡ c.depth
    → no_weights c ≡ false
    → normalized c.capabilities ≡ c.capabilities
    → settle_config c ≡ c
unfolding settle_config
settled c d w v = rw d (rw w (rw v refl))

seen :
    (c : Capabilities)
    → (c.observation ≡ "local") ⊎ (c.observation ≡ "global") × (c.global_state ≡ true)
    → normalized c ≡ c
unfolding normalized
seen c (inl here) =
    let set : str_eq c.observation "" ≡ false = ap (λ o. str_eq o "") here in
    let near : str_eq c.observation "global" ≡ false = ap (λ o. str_eq o "global") here in
    rw set (rw near refl)
seen c (inr (far, all)) =
    let set : str_eq c.observation "" ≡ false = ap (λ o. str_eq o "") far in
    let wide : str_eq c.observation "global" ≡ true = ap (λ o. str_eq o "global") far in
    rw set (rw wide (ap (λ g. record { observation = c.observation; global_state = g }) (sym all)))

normalize-eq :
    (c : Config)
    → fill_config c ≡ c
    → settle_config c ≡ c
    → eq_ℤ c.version (pos 1) ≡ true
    → (not (str_eq c.mode "greedy") && not (str_eq c.mode "lookahead")) ≡ false
    → (ltb_ℤ c.depth (pos 1) || ltb_ℤ (pos 8) c.depth) ≡ false
    → (not (str_eq c.capabilities.observation "local")
        && not (str_eq c.capabilities.observation "global"))
      ≡ false
    → normalize c ≡ normal c
unfolding normalize
normalize-eq c f s v m d o = rw (f, normalize) (rw s (rw v (rw m (rw d (rw o refl)))))

normal_view :
    (c : Capabilities)
    → (c.observation ≡ "local") ⊎ (c.observation ≡ "global") × (c.global_state ≡ true)
    → (not (str_eq c.observation "local") && not (str_eq c.observation "global")) ≡ false
normal_view c (inl here) = ground (arith, (str_eq_iff c.observation "local").1 here)
normal_view c (inr (far, all)) = ground (arith, (str_eq_iff c.observation "global").1 far)

normalize-IsNormal : (c : Config) → IsNormal c → normalize c ≡ normal c
unfolding IsNormal
normalize-IsNormal c (version, inl (greedy, one), weighty, view) =
    let named : str_eq c.mode "" ≡ false = ap (λ m. str_eq m "") greedy in
    let mode : str_eq c.mode "greedy" ≡ true = (str_eq_iff _ _).1 greedy in
    normalize-eq c (filled c (ground arith) named (ground arith))
      (settled c (rw mode (sym one)) weighty (seen c.capabilities view)) (ground arith)
      (ground arith) (ground arith) (normal_view c.capabilities view)
normalize-IsNormal c (version, inr (ahead, low, high), weighty, view) =
    let named : str_eq c.mode "" ≡ false = ap (λ m. str_eq m "") ahead in
    let other : str_eq c.mode "greedy" ≡ false = ap (λ m. str_eq m "greedy") ahead in
    let mode : str_eq c.mode "lookahead" ≡ true = (str_eq_iff _ _).1 ahead in
    normalize-eq c (filled c (ground arith) named (ground arith))
      (settled c (rw other refl) weighty (seen c.capabilities view)) (ground arith) (ground arith)
      (ground arith) (normal_view c.capabilities view)

-- A configuration that normalize returns has a depth from 1 to 8, and normalize returns it
-- unchanged.
pub normalize-idempotent :
    (c n : Config)
    → normalize c ≡ normal n
    → (normalize n ≡ normal n) × (pos 1 ≤ℤ n.depth) × (n.depth ≤ℤ pos 8)
unfolding IsNormal
normalize-idempotent c n h =
    let ok' = subst Fine h (normalize-Fine c) in
    (normalize-IsNormal n ok', ground (arith, ok'.1), ground (arith, ok'.1))

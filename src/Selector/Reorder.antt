-- ===== src/Selector/Reorder.antt =====
-- internal/selector/selector.go (stableRRPick): what a map in another order leaves of the candidates.
use mathlib.Core.List.{Permᴰ}
use mathlib.Core.List
use grokbuild_pool.Base.{
  ℤ, ltb_ℤ, eqb_ℤ, eqb_ℤ_iff, Bool, true, false, ◌≡◌, refl, sym, ◌∙◌, subst, List, [], ◌∷◌, map,
  keep, inl, inr, ◌⊎◌, arith, if◌then◌else◌, string_eq,
}
use grokbuild_pool.Hot.Meta.{HotMeta, IdSet, excluded}
use grokbuild_pool.Hot.Index.{HotMap}
use grokbuild_pool.Selector.Pick.{best_layer, rev_onto}

-- What a rearrangement does: the same head, two heads exchanged, and one after another.
module _ {A : Type 0} (R : List A → List A → Type 0) (none : R [] [])
    (same : (a : A) (l l' : List A) → R l l' → R (a ∷ l) (a ∷ l'))
    (exchange : (a b : A) (l : List A) → R (a ∷ b ∷ l) (b ∷ a ∷ l))
    (chain : (l l' l'' : List A) → R l l' → R l' l'' → R l l'') where
  pub Permᴰ-R : {l l' : List A} → Permᴰ l l' → R l l'
  Permᴰ-R Permᴰ.nil = none
  Permᴰ-R (Permᴰ.cons {a = a} {l₁ = l} {l₂ = l'} e d) =
      subst (λ z. R (a ∷ l) (z ∷ l')) e (same a l l' (Permᴰ-R d))
  Permᴰ-R (Permᴰ.swap {a = a} {b = b} {a' = a'} {b' = b'} {l = l} e e') =
      subst (λ z. R (a ∷ b ∷ l) (a' ∷ z ∷ l)) e
        (subst (λ z. R (a ∷ b ∷ l) (z ∷ a ∷ l)) e' (exchange a b l))
  Permᴰ-R (Permᴰ.trans {l₁ = l} {l₂ = l'} {l₃ = l''} d d') = chain l l' l'' (Permᴰ-R d) (Permᴰ-R d')

-- The accounts of a map that are kept.
abbrev pub values : (HotMeta → Bool) → HotMap → List HotMeta
values test hot = keep test (map (λ e. e.1) hot)

keep_head :
    (b : Bool) (m : HotMeta) (xs ys : List HotMeta)
    → Permᴰ xs ys
    → Permᴰ (if b then m ∷ xs else xs) (if b then m ∷ ys else ys)
keep_head true m xs ys d = Permᴰ.cons refl d
keep_head false m xs ys d = d

keep_heads :
    (b c : Bool) (m n : HotMeta) (xs : List HotMeta)
    → Permᴰ
        (if b then m ∷ (if c then n ∷ xs else xs) else (if c then n ∷ xs else xs))
        (if c then n ∷ (if b then m ∷ xs else xs) else (if b then m ∷ xs else xs))
keep_heads true true m n xs = Permᴰ.swap refl refl
keep_heads true false m n xs = List.Permᴰ.refl (m ∷ xs)
keep_heads false true m n xs = List.Permᴰ.refl (n ∷ xs)
keep_heads false false m n xs = List.Permᴰ.refl xs

pub values-Permᴰ :
    (test : HotMeta → Bool) {hot hot' : HotMap}
    → Permᴰ hot hot'
    → Permᴰ (values test hot) (values test hot')
unfolding keep
values-Permᴰ test =
    Permᴰ-R (λ hot hot'. Permᴰ (values test hot) (values test hot')) Permᴰ.nil
      (λ e l l' d. keep_head (test e.1) e.1 (values test l) (values test l') d)
      (λ e e' l. keep_heads (test e.1) (test e'.1) e.1 e'.1 (values test l))
      (λ l l' l'' d d'. Permᴰ.trans d d')

rev_onto-acc :
    (ms acc acc' : List HotMeta) → Permᴰ acc acc' → Permᴰ (rev_onto ms acc) (rev_onto ms acc')
unfolding rev_onto
rev_onto-acc [] acc acc' d = d
rev_onto-acc (m ∷ ms) acc acc' d = rev_onto-acc ms (m ∷ acc) (m ∷ acc') (Permᴰ.cons refl d)

pub rev_onto-Permᴰ :
    {ms ms' : List HotMeta}
    → Permᴰ ms ms'
    → (acc acc' : List HotMeta) → Permᴰ acc acc'
    → Permᴰ (rev_onto ms acc) (rev_onto ms' acc')
unfolding rev_onto
rev_onto-Permᴰ =
    Permᴰ-R
      (λ ms ms'.
        (acc acc' : List HotMeta) → Permᴰ acc acc' → Permᴰ (rev_onto ms acc) (rev_onto ms' acc'))
      (λ acc acc' d. d) (λ m l l' h acc acc' d. h (m ∷ acc) (m ∷ acc') (Permᴰ.cons refl d))
      (λ m n l acc acc' d.
        rev_onto-acc l (n ∷ m ∷ acc) (m ∷ n ∷ acc')
          (Permᴰ.trans (Permᴰ.swap refl refl) (Permᴰ.cons refl (Permᴰ.cons refl d))))
      (λ l l' l'' h h' acc acc' d. Permᴰ.trans (h acc acc' d) (h' acc' acc' (List.Permᴰ.refl acc')))

-- Two tests by the same Boolean.
if_both :
    {A : Type 0} (R : A → A → Type 0) (b : Bool) {x x' y y' : A}
    → R x x'
    → R y y'
    → R (if b then x else y) (if b then x' else y')
if_both R true h k = h
if_both R false h k = k

module _ (exclude : IdSet) where
  best_layer-acc :
      (all : List HotMeta) (best : ℤ) (c c' : List HotMeta)
      → Permᴰ c c'
      → Permᴰ (best_layer exclude best c all) (best_layer exclude best c' all)
  unfolding best_layer
  best_layer-acc [] best c c' d = d
  best_layer-acc (m ∷ all) best c c' d =
      let R = λ (x y : List HotMeta). Permᴰ x y in
      let rest = best_layer-acc all best c c' d in
      if_both R (excluded exclude m.id) rest (
        if_both R (ltb_ℤ best m.priority) (List.Permᴰ.refl _) (
          if_both R (eqb_ℤ m.priority best)
            (best_layer-acc all best (m ∷ c) (m ∷ c') (Permᴰ.cons refl d)) rest))

  -- The best priority and the accounts of it after one more account.
  layer_step : ℤ × List HotMeta → HotMeta → ℤ × List HotMeta
  layer_step (best, c) m =
      if excluded exclude m.id
      then (best, c)
      else if ltb_ℤ best m.priority
      then (m.priority, m ∷ [])
      else if eqb_ℤ m.priority best
      then (best, m ∷ c)
      else (best, c)

  layer_of : ℤ × List HotMeta → List HotMeta → List HotMeta
  layer_of x all = best_layer exclude x.0 x.1 all

  layer_of_cons :
      (x : ℤ × List HotMeta) (m : HotMeta) (all : List HotMeta)
      → layer_of x (m ∷ all) ≡ layer_of (layer_step x m) all
  unfolding layer_of layer_step best_layer
  layer_of_cons (best, c) m all = ground arith

  layer_steps :
      (best : ℤ) (c : List HotMeta) (m n : HotMeta)
      → (layer_step (layer_step (best, c) m) n ≡ layer_step (layer_step (best, c) n) m)
        ⊎ (((layer_step (layer_step (best, c) m) n ≡ (best, n ∷ m ∷ c))
              × (layer_step (layer_step (best, c) n) m ≡ (best, m ∷ n ∷ c)))
            ⊎ ((layer_step (layer_step (best, c) m) n ≡ (m.priority, n ∷ m ∷ []))
                × (layer_step (layer_step (best, c) n) m ≡ (m.priority, m ∷ n ∷ []))))
  unfolding layer_step
  layer_steps best c m n = ground (
    arith,
    eqb_ℤ_iff m.priority best,
    eqb_ℤ_iff n.priority best,
    eqb_ℤ_iff n.priority m.priority,
    eqb_ℤ_iff m.priority n.priority,
  )

  best_layer-exchange :
      (best : ℤ) (c : List HotMeta) (m n : HotMeta) (l : List HotMeta)
      → Permᴰ (best_layer exclude best c (m ∷ n ∷ l)) (best_layer exclude best c (n ∷ m ∷ l))
  unfolding layer_of
  best_layer-exchange best c m n l =
      let x = layer_step (layer_step (best, c) m) n in
      let y = layer_step (layer_step (best, c) n) m in
      let left : layer_of (best, c) (m ∷ n ∷ l) ≡ layer_of x l =
        layer_of_cons (best, c) m (n ∷ l) ∙ layer_of_cons (layer_step (best, c) m) n l in
      let right : layer_of (best, c) (n ∷ m ∷ l) ≡ layer_of y l =
        layer_of_cons (best, c) n (m ∷ l) ∙ layer_of_cons (layer_step (best, c) n) m l in
      let swapped : (top : ℤ) (cs : List HotMeta)
          → x ≡ (top, n ∷ m ∷ cs)
          → y ≡ (top, m ∷ n ∷ cs)
          → Permᴰ (layer_of x l) (layer_of y l) =
        λ top cs e e'.
          rw (e, e') (best_layer-acc l top (n ∷ m ∷ cs) (m ∷ n ∷ cs) (Permᴰ.swap refl refl)) in
      let between : Permᴰ (layer_of x l) (layer_of y l) = elim (layer_steps best c m n) [
        | inl e ↦
            subst (λ z. Permᴰ (layer_of x l) (layer_of z l)) e (List.Permᴰ.refl (layer_of x l))
        | inr (inl (e, e')) ↦ swapped best c e e'
        | inr (inr (e, e')) ↦ swapped m.priority [] e e'
      ] in
      subst (λ z. Permᴰ z (layer_of (best, c) (n ∷ m ∷ l))) (sym left)
        (subst (λ z. Permᴰ (layer_of x l) z) (sym right) between)

  pub best_layer-Permᴰ :
      {all all' : List HotMeta}
      → Permᴰ all all'
      → (best : ℤ) (c : List HotMeta)
      → Permᴰ (best_layer exclude best c all) (best_layer exclude best c all')
  unfolding best_layer
  best_layer-Permᴰ =
      let R = λ (x y : List HotMeta). Permᴰ x y in
      Permᴰ-R
        (λ all all'.
          (best : ℤ) (c : List HotMeta)
          → Permᴰ (best_layer exclude best c all) (best_layer exclude best c all'))
        (λ best c. List.Permᴰ.refl c)
        (λ m l l' h best c. if_both R (excluded exclude m.id) (h best c) (
          if_both R (ltb_ℤ best m.priority) (h m.priority (m ∷ []))
            (if_both R (eqb_ℤ m.priority best) (h best (m ∷ c)) (h best c))))
        (λ m n l best c. best_layer-exchange best c m n l)
        (λ l l' l'' h h' best c. Permᴰ.trans (h best c) (h' best c))

-- ===== src/Controller/Drift.antt =====
-- The session map across two calls of `recomputeAndApply`. `assignmentLoop` writes indices into
-- `c.backends`, `recomputeAndApply` reads them so and leaves indices into the available backends.
use udplb.Base.{
  some_same, ℕ, ◌<◌, ◌^◌, ◌≡◌, ◌≢◌, sym, ◌∙◌, ap, Option, some, List, [], ◌∷◌, length, get_elem?,
  bytes_comparable, lookup, IsMap,
}
use mathlib.Core.Path.{subst, subst₂}
use udplb.Types.{Uuid, Backend}
use udplb.Controller.{Controller, Objects, filter_available, recompute_and_apply}
use udplb.Controller.Remap.{At}
use udplb.Controller.Apply.{Applied, Recomputed, recompute_and_apply-Recomputed}

-- What is known of a call that set objects.
pub Applied-of :
    (order : List ℕ → List ℕ) (c c' : Controller) (o : Objects)
    → length c.backends < 2 ^ 32
    → IsMap c.session_map
    → recompute_and_apply order c ≡ some (c', some o)
    → Applied c c' o
Applied-of order c c' o h m e =
    by_cases (filter_available c.backends) (recompute_and_apply-Recomputed order c h m)
  where
    by_cases :
        (available : List Backend)
        → Recomputed c available (recompute_and_apply order c)
        → Applied c c' o
    by_cases [] r = cc
    by_cases (b ∷ bs) (c1, o1, r, a) =
        let same : ◌≡◌ {A = Option (Controller × Option Objects)} (some (c1, some o1))
            (some (c', some o)) =
          sym r ∙ e in
        let same_c : c1 ≡ c' = cc in
        let same_o : o1 ≡ o = cc in subst₂ (λ x y. Applied c x y) same_c same_o a

At-unique : (bs : List Backend) (p : ℕ) (x y : Uuid) → At bs p x → At bs p y → x ≡ y
At-unique bs p x y (b, e, i) (c, f, j) = let same : b ≡ c = cc in cc

-- A session of backend `b` gets the index `k` in the list of available backends. If `b` is not the
-- `k`-th configured backend, a second call with no event between the two takes the session away from
-- `b`: whatever entry it has then does not stand for `b`.
pub recompute_twice-misroutes :
    (order : List ℕ → List ℕ) (c c' c'' : Controller) (o o' : Objects) (s : Uuid) (i k k' : ℕ)
    (b d : Backend)
    → length c.backends < 2 ^ 32
    → IsMap c.session_map
    → lookup s c.session_map ≡ some i
    → get_elem? c.backends i ≡ some b
    → recompute_and_apply order c ≡ some (c', some o)
    → lookup s o.session_map ≡ some k
    → get_elem? c.backends k ≡ some d
    → d.id ≢ b.id
    → recompute_and_apply order c' ≡ some (c'', some o')
    → lookup s o'.session_map ≡ some k'
    → At o.backend_list k b.id × ¬ At o'.backend_list k' b.id
recompute_twice-misroutes order c c' c'' o o' s i k k' b d h m s_i at_i first s_k at_k ne second
      s_k' =
    (on_first, off_second)
  where
    a1 : Applied c c' o
    a1 = Applied-of order c c' o h m first

    a2 : Applied c' c'' o'
    a2 = Applied-of order c' c'' o' (rw a1.same_backends h) a1.still_map second

    on_first : At o.backend_list k b.id
    on_first =
        let (i', b', found, at_b', at_new) = a1.sessions s k s_k in
        let same_i : i' ≡ i = cc in
        let same_b : b' ≡ b = some_same (sym at_b' ∙ rw same_i at_i) in
        subst (λ (x : Backend). At o.backend_list k x.id) same_b at_new

    off_second : ¬ At o'.backend_list k' b.id
    off_second at =
        let (j, e, found, at_e, at_new) = a2.sessions s k' s_k' in
        let same_j : j ≡ k = some_same (sym found ∙ rw a1.remembered s_k) in
        let same_e : e ≡ d = some_same (sym at_e ∙ rw (a1.same_backends, same_j) at_k) in
        ne (
          ap (λ (x : Backend). x.id) (sym same_e)
          ∙ At-unique o'.backend_list k' e.id b.id at_new at)

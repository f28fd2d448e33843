-- ===== src/Cluster/SendLoop/Ends.antt =====
-- How the send loop ends once it is told to terminate, as `Close` of the mux waits for it to.
use mathlib.Core.List.{append-nil, append_assoc}
use udplb.Base.{
  ℕ, ◌≡◌, refl, sym, ap, ◌∙◌, true, ◌||◌, none, some, List, [], ◌∷◌, ◌++◌, get_elem?, set, length,
  get_elem?-append_length, if◌then◌else◌, arith,
}
use udplb.Cluster.SendLoop.{
  Reader, selecting, reader_returned, holding, Source, Stage, looping, terminating, loop_returned,
  SendLoop, stops, leaves, finishes, is_returned, all_returned, stop_source, at_source, put_source,
  leave_loop, finish_loop, step,
}

module _ {C : Type 0} where
  -- Steps of the goroutines and of the loop only: no sender, and no dialling.
  pub data Leads (s : SendLoop C) : SendLoop C → Type 0 where
    here : Leads s s
    stopped : {s1 s2 : SendLoop C} (i : ℕ) → Leads s s1 → step (stops i) s1 ≡ some s2 → Leads s s2
    left : {s1 s2 : SendLoop C} → Leads s s1 → step leaves s1 ≡ some s2 → Leads s s2
    finished : {s1 s2 : SendLoop C} → Leads s s1 → step finishes s1 ≡ some s2 → Leads s s2

set-append_length :
    (xs : List Source) (y z : Source) (ys : List Source)
    → set (xs ++ (y ∷ ys)) (length xs) z ≡ xs ++ (z ∷ ys)
set-append_length [] y z ys = refl
set-append_length (x ∷ xs) y z ys = ap (λ l. x ∷ l) (set-append_length xs y z ys)

all_returned-snoc :
    (xs : List Source) (y : Source)
    → all_returned xs ≡ true
    → is_returned y.reader ≡ true
    → all_returned (xs ++ (y ∷ [])) ≡ true
all_returned-snoc [] y a r = ground arith
all_returned-snoc (x ∷ xs) y a r =
    let rest = all_returned-snoc xs y (ground arith) r in ground arith

abbrev at_end : Source → Source
at_end src = record src { reader = reader_returned }

abbrev with_source : {C : Type 0} → ℕ → Source → SendLoop C → SendLoop C
with_source i src s = record s { sources = set s.sources i src }

module _ {C : Type 0} (s : SendLoop C) where
  -- A state that is told to terminate, with the goroutines of the sources `pre` returned.
  record Stopping (pre post : List Source) (s1 : SendLoop C) : Type 0 where
    leads : Leads s s1
    told : s1.terminate_closed ≡ true
    rest : s1.sources ≡ pre ++ post
    returned : all_returned pre ≡ true

  stop_next :
      (pre post : List Source) (src : Source) (s1 : SendLoop C)
      → Stopping pre (src ∷ post) s1
      → (src' : Source) × (s2 : SendLoop C) × Stopping (pre ++ (src' ∷ [])) post s2
  unfolding step
  stop_next pre post src s1 h = by_reader src.reader refl
    where
      at_src : get_elem? s1.sources (length pre) ≡ some src
      at_src = ap (λ l. get_elem? l (length pre)) h.rest ∙ get_elem?-append_length pre src post

      step_lem :
          stop_source true src.reader src ≡ some (at_end src)
          → step (stops (length pre)) s1 ≡ some (with_source (length pre) (at_end src) s1)
      step_lem q =
          ap (λ o. at_source (λ a. stop_source s1.terminate_closed a.reader a) (length pre) o s1)
            at_src
          ∙ ap (λ o. put_source (length pre) o s1)
              (ap (λ t. stop_source t src.reader src) h.told ∙ q)

      now_stopped :
          stop_source true src.reader src ≡ some (at_end src)
          → (src' : Source) × (s2 : SendLoop C) × Stopping (pre ++ (src' ∷ [])) post s2
      now_stopped q = (
        at_end src,
        with_source (length pre) (at_end src) s1,
        record {
          leads = stopped (length pre) h.leads (step_lem q);
          told = h.told;
          rest =
              ap (λ l. set l (length pre) (at_end src)) h.rest
              ∙ set-append_length pre src (at_end src) post
              ∙ sym (append_assoc pre ((at_end src) ∷ []) post);
          returned = all_returned-snoc pre (at_end src) h.returned refl;
        },
      )

      by_reader :
          (reader : Reader)
          → src.reader ≡ reader
          → (src' : Source) × (s2 : SendLoop C) × Stopping (pre ++ (src' ∷ [])) post s2
      by_reader reader_returned e = (
        src,
        s1,
        record {
          leads = h.leads;
          told = h.told;
          rest = h.rest ∙ sym (append_assoc pre (src ∷ []) post);
          returned = all_returned-snoc pre src h.returned (rw e refl);
        },
      )
      by_reader selecting e = now_stopped (ap (λ r. stop_source true r src) e)
      by_reader (holding msg) e = now_stopped (ap (λ r. stop_source true r src) e)

  stop_rest :
      (post pre : List Source) (s1 : SendLoop C)
      → Stopping pre post s1
      → (srcs : List Source) × (s2 : SendLoop C) × Stopping srcs [] s2
  stop_rest [] pre s1 h = (pre, s1, h)
  stop_rest (src ∷ post) pre s1 h =
      let (src', s2, h') = stop_next pre post src s1 h in stop_rest post (pre ++ (src' ∷ [])) s2 h'

  all_over :
      (srcs : List Source) (s1 : SendLoop C) → Stopping srcs [] s1 → all_returned s1.sources ≡ true
  all_over srcs s1 h = ap all_returned (h.rest ∙ append-nil srcs) ∙ h.returned

  abbrev pub Over : SendLoop C → Type 0
  Over s2 = Leads s s2 × (s2.stage ≡ loop_returned) × (all_returned s2.sources ≡ true)

  finishing :
      (s1 : SendLoop C)
      → s1.stage ≡ terminating
      → Leads s s1
      → all_returned s1.sources ≡ true
      → (s2 : SendLoop C) × Over s2
  unfolding step
  finishing s1 e l a = (_, (finished l (ap (λ g. finish_loop g s1) e), refl, a))

  stage_end :
      (stage : Stage) (s1 : SendLoop C)
      → s1.stage ≡ stage
      → Leads s s1
      → s1.terminate_closed ≡ true
      → all_returned s1.sources ≡ true
      → (s2 : SendLoop C) × Over s2
  unfolding step
  stage_end looping s1 e l t a =
      let s3 : SendLoop C = record s1 { stage = terminating } in
      finishing s3 refl
        (left l (
          ap (λ g. leave_loop g s1) e
          ∙ ap (λ b. if b || all_returned s1.sources then some s3 else none) t))
        a
  stage_end terminating s1 e l t a = finishing s1 e l a
  stage_end loop_returned s1 e l t a = (s1, (l, e, a))

  -- Once the send loop is told to terminate, it ends by itself: from any state, wherever the goroutines
  -- are and whatever messages are under way, steps of the goroutines and of the loop alone lead to a
  -- state in which the loop and all goroutines have returned.
  pub terminate_closed-Over : s.terminate_closed ≡ true → (s2 : SendLoop C) × Over s2
  terminate_closed-Over t =
      let (srcs, s1, h) =
        stop_rest s.sources [] s
          (record { leads = here; told = t; rest = refl; returned = refl }) in
      stage_end s1.stage s1 refl h.leads h.told (all_over srcs s1 h)

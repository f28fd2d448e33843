-- ===== src/RingBuffer/Race.antt =====
-- What other goroutines may do between the two parts of `Next`.
use udplb.Base.{
  suc, ◌-◌, ◌≡◌, refl, ◌∙◌, ap, none, some, List, [], ◌∷◌, ◌++◌, arith, length, length-append,
}
use mathlib.Core.Path.{subst}
use udplb.RingBuffer.{RingBuffer, add_token, write, receive, take_value}
use udplb.RingBuffer.Layout.{Holds}
use udplb.RingBuffer.Refine.{
  Wrote, write-Wrote, push-full, taken, taken-Holds, take_value-nonempty, take_value-empty,
}
use udplb.RingBuffer.Fifo.{Stores, IsValid, with_tokens, with_tokens-Holds, receive-some}
use udplb.RingBuffer.History.{read_n, read_n-Stores}

module _ {ℓ} {A : Type ℓ} where
  -- A reader that has its token, then a writer on the full buffer, then the reader's value.
  pub record Raced (v : A) (rb : RingBuffer A) (q : List A) : Type ℓ where
    pub with_token : RingBuffer A
    pub overwritten : RingBuffer A
    pub first : A
    pub after : RingBuffer A
    pub received : receive rb ≡ some with_token
    pub wrote : write v with_token ≡ some overwritten
    pub took : take_value overwritten ≡ some (first, after)
    pub surplus : Stores 1 after q

  race :
      (v x y : A) (rb : RingBuffer A) (q r : List A)
      → IsValid rb (x ∷ q)
      → suc (length q) ≡ rb.size
      → q ++ (v ∷ []) ≡ y ∷ r
      → Raced v rb r
  unfolding add_token
  race v x y rb q r s full e = record {
    with_token = rb1;
    overwritten = w.after;
    first = y;
    after = taken w.after;
    received = receive-some rb (let t = s.tokens in omega arith);
    wrote = w.runs;
    took = take_value-nonempty y r held;
    surplus = record {
      layout = taken-Holds y r held;
      tokens =
          let t = s.tokens in
          let u = w.tokens in ground (arith, length-append q (v ∷ []), ap length e);
    };
  }
    where
      rb1 : RingBuffer A
      rb1 = with_tokens (rb.safe_next - 1) rb

      w : Wrote v rb1 (x ∷ q)
      w = write-Wrote v (x ∷ q) (with_tokens-Holds (rb.safe_next - 1) s.layout)

      held : Holds w.after (y ∷ r)
      held = subst (Holds w.after) (push-full rb.size v x q full ∙ e) w.holds

  snoc-cons : (q : List A) (v : A) → (y : A) × (r : List A) × (q ++ (v ∷ []) ≡ y ∷ r)
  snoc-cons [] v = (v, [], refl)
  snoc-cons (y ∷ q) v = (y, q ++ (v ∷ []), refl)

  -- On a full buffer of any positive size: a reader receives its token, a writer overwrites, the
  -- reader takes its value; after that some number of undisturbed calls of `Next` return values, and
  -- then one more receives a token and finds a nil cell, so that its `return *out` panics.
  pub race_panics :
      (v x : A) (rb : RingBuffer A) (q : List A)
      → IsValid rb (x ∷ q)
      → suc (length q) ≡ rb.size
      → (r : List A) × (raced : Raced v rb r) × (drained last : RingBuffer A) × (read_n
            (length r)
            raced.after
          ≡ some (r, drained))
        × (receive drained ≡ some last)
        × (take_value last ≡ none)
  race_panics v x rb q s full =
      let (y, r, e) = snoc-cons q v in
      let raced = race v x y rb q r s full e in
      let (drained, read, left) = read_n-Stores 1 r raced.after raced.surplus in
      (
        r,
        raced,
        drained,
        with_tokens (drained.safe_next - 1) drained,
        read,
        receive-some drained (let t = left.tokens in omega arith),
        take_value-empty (with_tokens-Holds (drained.safe_next - 1) left.layout),
      )

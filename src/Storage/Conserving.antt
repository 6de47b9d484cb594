-- ===== src/Storage/Conserving.antt =====
-- A buffer between readers and writers, as an interface: what one call gives to a reader and takes
-- from a writer, and what the buffer holds. If no single call loses or invents a byte, no sequence of
-- calls does.
use lensor_os.Prelude.{ℕ, ◌≡◌, ◌∙◌, sym, ap, List, [], ◌∷◌, ◌++◌, append_assoc, append-nil}

-- What one call gives, takes, and leaves behind.
pub record Step {ℓ} (S : Type ℓ) : Type ℓ where
  pub given : List ℕ
  pub taken : List ℕ
  pub after : S

pub record Buffer {ℓ κ} (O : Type κ) (S : Type ℓ) : Type (ℓ ⊔ κ ⊔ 1) where
  pub step : O → S → Step S
  pub contents : S → List ℕ
  pub Valid : S → Type 0
  pub conserves :
      (o : O) (s : S)
      → Valid s
      → ((step o s).given ++ contents (step o s).after ≡ contents s ++ (step o s).taken)
        × Valid (step o s).after

module _ {ℓ κ} {O : Type κ} {S : Type ℓ} (b : Buffer O S) where
  -- A sequence of calls: all that readers got, all that writers got rid of, and the state at the end.
  unfoldable pub run : List O → S → Step S
  run [] s = record { given = []; taken = []; after = s }
  run (o ∷ os) s =
      let one = b.step o s in
      let rest = run os one.after in
      record {
        given = one.given ++ rest.given;
        taken = one.taken ++ rest.taken;
        after = rest.after;
      }

  regroup :
      (out g c c' p a t : List ℕ)
      → g ++ c ≡ c' ++ t
      → out ++ c' ≡ p ++ a
      → (out ++ g) ++ c ≡ p ++ (a ++ t)
  regroup out g c c' p a t rest one =
      append_assoc out g c
      ∙ ap (λ r. out ++ r) rest
      ∙ sym (append_assoc out c' t)
      ∙ ap (λ r. r ++ t) one
      ∙ append_assoc p a t

  -- What was read, followed by what is held in the end, is what was held, followed by what was taken.
  pub run-conserves :
      (os : List O) (s : S)
      → b.Valid s
      → let r = run os s in
        (r.given ++ b.contents r.after ≡ b.contents s ++ r.taken) × b.Valid r.after
  unfolding run
  run-conserves [] s v = (sym (append-nil (b.contents s)), v)
  run-conserves (o ∷ os) s v =
      let one = b.step o s in
      let rest = run os one.after in
      let (e, valid) = b.conserves o s v in
      let (f, valid') = run-conserves os one.after valid in
      (
        regroup one.given rest.given (b.contents rest.after) (b.contents one.after) (b.contents s)
            one.taken rest.taken f e,
        valid',
      )

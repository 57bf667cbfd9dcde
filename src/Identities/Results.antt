-- ===== src/Identities/Results.antt =====
-- How a chain of results was gone through where it ended in one.
use face_identify.Prelude.{
  ◌≡◌, refl, ap, sym, ◌∙◌, Bool, true, false, Option, none, some, if◌then◌else◌, same→eq,
}
use face_identify.Identities.Model.{
  IdentityState, IdentityState-discrete, Identity, IdentityError, Result, err, ok, ◌>>=◌, ◌>>◌,
  need, active_row,
}

module _ {ℓ} {A : Type ℓ} where
  pub ok-injective : (a c : A) → ok a ≡ ok c → a ≡ c
  ok-injective a c h = cc

  pub ok-if :
      (b : Bool) (e : IdentityError) (a c : A)
      → (if b then err e else ok a) ≡ ok c
      → (b ≡ false) × (a ≡ c)
  ok-if true e a c h = absurd (cc)
  ok-if false e a c h = (refl, cc)

  pub ok-then :
      (b : Bool) (e : IdentityError) (next : Result A) (c : A)
      → need b e >> next ≡ ok c
      → (b ≡ true) × (next ≡ ok c)
  ok-then true e next c h = (refl, h)
  ok-then false e next c h = absurd (cc)

  pub ok-after :
      (first : Result (Unit {0})) (next : Result A) (c : A)
      → first >> next ≡ ok c
      → (done : Unit {0}) × (first ≡ ok done) × (next ≡ ok c)
  ok-after (err e) next c h = absurd (cc)
  ok-after (ok done) next c h = (done, refl, h)

  pub ok-bind {κ} :
      {B : Type κ} (first : Result B) (next : B → Result A) (c : A)
      → first >>= next ≡ ok c
      → (b : B) × (first ≡ ok b) × (next b ≡ ok c)
  ok-bind (err e) next c h = absurd (cc)
  ok-bind (ok b) next c h = (b, refl, h)

pub active_row-inverts :
    (o : Option Identity) (i : Identity)
    → active_row o ≡ ok i
    → (o ≡ some i) × (i.state ≡ IdentityState.active)
active_row-inverts none i h = absurd (cc)
active_row-inverts (some j) i h =
    let (active, e) = ok-then _ _ _ i h in
    let same_row = ok-injective j i e in
    (
      ap some same_row,
      ap (λ (x : Identity). x.state) (sym same_row)
          ∙ same→eq IdentityState-discrete j.state IdentityState.active active,
    )

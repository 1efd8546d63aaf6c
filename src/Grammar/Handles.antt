-- ===== src/Grammar/Handles.antt =====
-- src/sv_parser/sieve.y and src/sv_interface/script.c: the handle of a vacation command, from its tags.
use libsieve.Prelude.{
  ℕ, Bool, true, false, List, [], ◌∷◌, Option, none, some, Text, ℤ, pos, negsuc, ◌≤◌, ◌≡◌, ◌⊎◌, inl,
  inr, refl, ◌∙◌, arith, if◌then◌else◌,
}
use libsieve.Run.{Run, ok, fault, out_of_bounds, Ensures, Ensures-any, Ensures-mono, Ensures-bind}
use libsieve.Context.State.{Context}
use libsieve.Outside.{Outside}
use libsieve.Script.Vacation.{handle_of}
use libsieve.Script.Handle.{colon_handle, IsDigit, handle_of-fits}
use libsieve.Grammar.Vtags.{
  Vtags, new_vtags, canon_vtags, build_vacation, Vtag, days, addresses, subject, handle, from, mime,
  Tagged, tagged, refused, verify_addresses, add_addresses, add_vtag, vtags, vacation_of,
  is_minus_one, only_once, ok_header, or_default,
}

abbrev pub HasMime : List Vtag → Type 0
HasMime [] = ⊥
HasMime (mime ∷ tags) = Unit
HasMime (_ ∷ tags) = HasMime tags

abbrev HasHandle : List Vtag → Type 0
HasHandle [] = ⊥
HasHandle (handle s ∷ tags) = Unit
HasHandle (_ ∷ tags) = HasHandle tags

-- The tags, where there are any.
abbrev Gives : (Vtags → Type 0) → Tagged → Type 0
Gives P (tagged v) = P v
Gives P (refused msg) = Unit

-- What the tags leave: no handle where none is given, and the token for `mime` where it is given.
abbrev Handled : ℤ → List Vtag → Vtags → Vtags → Type 0
Handled token tags v w =
    ((¬ HasHandle tags) → v.handle ≡ none → w.handle ≡ none)
    × ((HasMime tags × (w.mime ≡ token)) ⊎ ((¬ HasMime tags) × (w.mime ≡ v.mime)))

-- Neither differs.
abbrev Same : Vtags → Vtags → Type 0
Same v w = (w.handle ≡ v.handle) × (w.mime ≡ v.mime)

Handled-Same :
    (token : ℤ) (tags : List Vtag) (v v' w : Vtags)
    → Same v v'
    → Handled token tags v' w
    → Handled token tags v w
Handled-Same token tags v v' w (h, m) (handled, mimed) = (
  λ missing none_before. handled missing (h ∙ none_before),
  elim mimed [ inl given ↦ inl given | inr (other, same) ↦ inr (other, same ∙ m) ],
)

module _ {R W : Type 0} (o : Outside R W) (token : ℤ) where
  abbrev Result : (Vtags → Type 0) → Run (Tagged × Context W) → Type 0
  Result P m = Ensures (λ r. Gives P r.0) m

  add_addresses-Same :
      (old sl : List Text) (v : Vtags) (c : Context W)
      → Result (Same v) (add_addresses o token old sl v c)
  unfolding add_addresses
  add_addresses-Same (old ∷ more) sl v c = tt
  add_addresses-Same [] sl v c =
      Ensures-bind (λ _. Unit {0}) (λ r. Gives (Same v) r.0) (verify_addresses o token sl c) _
        (Ensures-any _) (λ (valid, called) _. if_valid valid)
    where
      if_valid :
          (valid : Bool)
          → Gives (Same v) (if valid then tagged (record v { addresses = sl }) else refused none)
      if_valid true = (refl, refl)
      if_valid false = tt

  vtags-step :
      (tag : Vtag) (tags : List Vtag) (v : Vtags) (c : Context W) (P Q : Vtags → Type 0)
      → Result Q (add_vtag o token tag v c)
      → ((v' : Vtags) (d : Context W) → Q v' → Result P (vtags o token tags v' d))
      → Result P (vtags o token (tag ∷ tags) v c)
  unfolding vtags
  vtags-step tag tags v c P Q h k =
      Ensures-bind (λ r. Gives Q r.0) (λ r. Gives P r.0) (add_vtag o token tag v c) _ h
        (λ (result, called) q. go_on result called q)
    where
      go_on :
          (result : Tagged) (called : Context W)
          → Gives Q result
          → Result P (elim result [
            | tagged v' ↦ vtags o token tags v' called
            | refused msg ↦ ok (refused msg, called)
          ])
      go_on (tagged v') called q = k v' called q
      go_on (refused msg) called q = tt

  Gives-if :
      (P : Vtags → Type 0) (b : Bool) (v : Vtags) (msg : Option Text)
      → P v
      → Gives P (if b then tagged v else refused msg)
  Gives-if P true v msg h = h
  Gives-if P false v msg h = tt

  Gives-once :
      (P : Vtags → Type 0) (old : Option Text) (message s : Text) (v : Vtags)
      → P v
      → Gives P (only_once old message s v)
  unfolding ok_header
  Gives-once P (some old) message s v h = tt
  Gives-once P none message s v h = h

  Gives-mono :
      (P Q : Vtags → Type 0) → ((w : Vtags) → P w → Q w) → (t : Tagged) → Gives P t → Gives Q t
  Gives-mono P Q f (tagged w) h = f w h
  Gives-mono P Q f (refused msg) h = tt

  after-Same :
      (tags : List Vtag) (v v' : Vtags) (d : Context W)
      → Same v v'
      → Result (Handled token tags v') (vtags o token tags v' d)
      → Result (Handled token tags v) (vtags o token tags v' d)
  after-Same tags v v' d same h =
      Ensures-mono _ _ (vtags o token tags v' d)
        (λ r.
          Gives-mono (Handled token tags v') (Handled token tags v)
            (λ w. Handled-Same token tags v v' w same) r.0)
        h

  vtags-Handled :
      (tags : List Vtag) (v : Vtags) (c : Context W)
      → Result (Handled token tags v) (vtags o token tags v c)
  unfolding vtags add_vtag
  vtags-Handled [] v c = ((λ missing before. before), inr ((λ h. h), refl))
  vtags-Handled (days n ∷ tags) v c =
      vtags-step (days n) tags v c (Handled token (days n ∷ tags) v) (Same v)
        (Gives-if (Same v) (is_minus_one v.days) (record v { days = n }) _ (refl, refl))
        (λ v' d same. after-Same tags v v' d same (vtags-Handled tags v' d))
  vtags-Handled (addresses sl ∷ tags) v c =
      vtags-step (addresses sl) tags v c (Handled token (addresses sl ∷ tags) v) (Same v)
        (add_addresses-Same v.addresses sl v c)
        (λ v' d same. after-Same tags v v' d same (vtags-Handled tags v' d))
  vtags-Handled (subject s ∷ tags) v c =
      vtags-step (subject s) tags v c (Handled token (subject s ∷ tags) v) (Same v)
        (Gives-once (Same v) v.subject _ s (record v { subject = some s }) (refl, refl))
        (λ v' d same. after-Same tags v v' d same (vtags-Handled tags v' d))
  vtags-Handled (handle s ∷ tags) v c =
      vtags-step (handle s) tags v c (Handled token (handle s ∷ tags) v) (λ v'. v'.mime ≡ v.mime)
        (Gives-once (λ v'. v'.mime ≡ v.mime) v.handle _ s (record v { handle = some s }) refl)
        (λ v' d m.
          Ensures-mono _ _ (vtags o token tags v' d)
            (λ r.
              Gives-mono (Handled token tags v') (Handled token (handle s ∷ tags) v)
                (λ w (handled, mimed). (
                  (λ missing. absurd (missing tt)),
                  elim mimed [ inl given ↦ inl given | inr (other, same) ↦ inr (other, same ∙ m) ],
                ))
                r.0)
            (vtags-Handled tags v' d))
  vtags-Handled (from s ∷ tags) v c =
      vtags-step (from s) tags v c (Handled token (from s ∷ tags) v) (Same v)
        (Gives-once (Same v) v.from _ s (record v { from = some s }) (refl, refl))
        (λ v' d same. after-Same tags v v' d same (vtags-Handled tags v' d))
  vtags-Handled (mime ∷ tags) v c =
      vtags-step mime tags v c (Handled token (mime ∷ tags) v)
        (λ v'. (v'.handle ≡ v.handle) × (v'.mime ≡ token))
        (Gives-if (λ v'. (v'.handle ≡ v.handle) × (v'.mime ≡ token)) (is_minus_one v.mime)
          (record v { mime = token }) _ (refl, refl))
        (λ v' d (h, m).
          Ensures-mono _ _ (vtags o token tags v' d)
            (λ r.
              Gives-mono (Handled token tags v') (Handled token (mime ∷ tags) v)
                (λ w (handled, mimed). (
                  (λ missing before. handled missing (h ∙ before)),
                  inl (tt, elim mimed [ inl given ↦ given.1 | inr (other, same) ↦ same ∙ m ]),
                ))
                r.0)
            (vtags-Handled tags v' d))

-- What `Ensures` says of a run that returned.
returned : {A : Type 0} (P : A → Type 0) (m : Run A) (a : A) → m ≡ ok a → Ensures P m → P a
returned P m a e h = rw e at h

or_default-token : (n : ℕ) (z : ℤ) → z ≡ pos n → or_default z (pos 0) ≡ pos n
or_default-token n z e = rw e refl

or_default-unset : (z : ℤ) → z ≡ negsuc 0 → or_default z (pos 0) ≡ pos 0
or_default-unset z e = rw e refl

not-IsDigit : (n : ℕ) (z : ℤ) → 10 ≤ n → z ≡ pos n → ¬ IsDigit z
not-IsDigit n z large e h = let below = rw e at h in omega (arith, below, large)

IsDigit-zero : (z : ℤ) → z ≡ pos 0 → IsDigit z
IsDigit-zero z e = rw e (omega arith)

-- A vacation command that the grammar builds from its tags, none of them `:handle`, where the number
-- of the token for `:mime` has more than one digit, gets a handle of its subject, its sender, its
-- message and the default 0 with colons between them, unless `:mime` is among its tags: then the
-- buffer for the handle is overrun.
pub vacation_of-handle :
    {R W : Type 0} (o : Outside R W) (token : ℕ) (tags : List Vtag) (reason : Text) (v : Vtags)
    (c d : Context W)
    → 10 ≤ token
    → (¬ HasHandle tags)
    → vtags o (pos token) tags new_vtags c ≡ ok (tagged v, d)
    → ((¬ HasMime tags)
        × (handle_of (vacation_of v reason) ≡ ok (colon_handle (vacation_of v reason))))
      ⊎ (HasMime tags × (handle_of (vacation_of v reason) ≡ fault out_of_bounds))
unfolding vacation_of canon_vtags build_vacation new_vtags
vacation_of-handle o token tags reason v c d large missing run =
    let (handled, mimed) =
      returned (λ r. Gives (Handled (pos token) tags new_vtags) r.0)
        (vtags o (pos token) tags new_vtags c) (tagged v, d) run
        (vtags-Handled o (pos token) tags new_vtags c) in
    let fits = handle_of-fits (vacation_of v reason) (handled missing refl) in
    elim mimed [
      | inl (given, m) ↦ inr (
        given,
        elim fits [
          | inl (digit, made) ↦
              absurd (not-IsDigit token _ large (or_default-token token v.mime m) digit)
          | inr (other, over) ↦ over
        ],
      )
      | inr (other, m) ↦ inl (
        other,
        elim fits [
          | inl (digit, made) ↦ made
          | inr (no_digit, over) ↦ absurd (no_digit (IsDigit-zero _ (or_default-unset v.mime m)))
        ],
      )
    ]

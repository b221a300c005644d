-- ===== src/Ingest/Store/Success.antt =====
-- Runs succeed when the database refuses nothing.
use go_espn_api.Prelude.{ℕ, ◌+◌, ◌≡◌, refl, ap, ◌∙◌, Bool, false, List, [], ◌∷◌}
use go_espn_api.Ingest.Store.{
  Result, ok, err, Session, Tx, pure, continue, ◌>>=◌, for_each, statement, with_tx, finish,
}

abbrev pub Succeeds : {D A : Type 0} → Tx D A → Type 0
Succeeds {D} {A} m = (s : Session D) → (a : A) × ((m s).0 ≡ ok a)

module _ {D : Type 0} where
  pub pure-Succeeds : {A : Type 0} (a : A) → Succeeds (pure {D = D} a)
  pure-Succeeds a s = (a, refl)

  continue-ok :
      {A B : Type 0} (o : Result A) (f : A → Tx D B) (s : Session D) (a : A)
      → o ≡ ok a
      → ((b : B) × ((f a s).0 ≡ ok b))
      → (b : B) × ((continue o f s).0 ≡ ok b)
  continue-ok o f s a e (b, h) = (b, ap (λ z. (continue z f s).0) e ∙ h)

  pub bind-Succeeds :
      {A B : Type 0} (m : Tx D A) (f : A → Tx D B)
      → Succeeds m
      → ((a : A) → Succeeds (f a))
      → Succeeds (m >>= f)
  unfolding ◌>>=◌
  bind-Succeeds m f p q s = let (a, e) = p s in continue-ok (m s).0 f (m s).1 a e (q a (m s).1)

  pub for_each-Succeeds :
      {A R : Type 0} (body : A → R → Tx D R)
      → ((x : A) (r : R) → Succeeds (body x r))
      → (xs : List A) (r : R) → Succeeds (for_each body xs r)
  unfolding for_each
  for_each-Succeeds body p [] r s = (r, refl)
  for_each-Succeeds body p (x ∷ xs) r s =
      bind-Succeeds (body x r) (for_each body xs) (p x r) (for_each-Succeeds body p xs) s

module _ (fails : ℕ → Bool) (never : (n : ℕ) → fails n ≡ false) {D : Type 0} where
  pub statement-Succeeds : {A : Type 0} (f : D → A × D) → Succeeds (statement fails f)
  unfolding statement
  statement-Succeeds f s = ((f s.db).0, rw (never s.clock))

  finish-ok :
      {A : Type 0} (before : D) (r : Result A) (s : Session D) (a : A)
      → r ≡ ok a
      → (finish fails before r s).0 ≡ ok a
  finish-ok before (ok b) s a e = rw (never s.clock) e
  finish-ok before (err x) s a e = absurd cc

  pub with_tx-Succeeds :
      {A : Type 0} (body : Tx D A) → Succeeds body → Succeeds (with_tx fails body)
  unfolding with_tx
  with_tx-Succeeds body p s =
      let t : Session D = record s { clock = s.clock + 1 } in
      let (a, e) = p t in (a, rw (never s.clock) (finish-ok s.db (body t).0 (body t).1 a e))

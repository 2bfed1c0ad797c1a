-- ===== src/Cmd/Lifecycle/Balance.antt =====
-- Which calls close what they open, in the reverse order.
use llmwatch.Base.{
  Bytes, List, [], ◌∷◌, ◌++◌, Bool, true, false, if◌then◌else◌, Option, none, some, Result, ok, err,
  ◌≡◌, refl, arith,
}
use llmwatch.Cmd.Lifecycle.{
  Resource, signals, pool, migrator, redis_client, writer, reader, Action, acquire, release, Trace,
  ◌>>=◌, ◌>>◌, act, check, within, deferring,
}

abbrev same : Resource → Resource → Bool
same signals signals = true
same pool pool = true
same migrator migrator = true
same redis_client redis_client = true
same writer writer = true
same reader reader = true
same _ _ = false

same_refl : (r : Resource) → same r r ≡ true
same_refl signals = refl
same_refl pool = refl
same_refl migrator = refl
same_refl redis_client = refl
same_refl writer = refl
same_refl reader = refl

abbrev close_top : Resource → List Resource → Option (List Resource)
close_top r [] = none
close_top r (top ∷ open_) = if same r top then some open_ else none

-- What is open after the actions, the last one opened first; `none` if something is closed that is
-- not the last one open.
abbrev pub held : List Action → List Resource → Option (List Resource)
held [] open_ = some open_
held (acquire r ∷ xs) open_ = held xs (r ∷ open_)
held (release r ∷ xs) open_ = elim (close_top r open_) [ none ↦ none | some rest ↦ held xs rest ]
held (_ ∷ xs) open_ = held xs open_

held-append :
    (xs ys : List Action) (open_ : List Resource)
    → held (xs ++ ys) open_ ≡ (elim (held xs open_) [ none ↦ none | some rest ↦ held ys rest ])
held-append [] ys open_ = refl
held-append (acquire r ∷ xs) ys open_ = held-append xs ys (r ∷ open_)
held-append (release r ∷ xs) ys [] = refl
held-append (release r ∷ xs) ys (top ∷ open_) = ground (arith, held-append xs ys open_)
held-append (Action.migrate_up ∷ xs) ys open_ = held-append xs ys open_
held-append (Action.partition d ∷ xs) ys open_ = held-append xs ys open_
held-append (Action.start_maintenance ∷ xs) ys open_ = held-append xs ys open_
held-append (Action.consume_events ∷ xs) ys open_ = held-append xs ys open_
held-append (Action.listen ∷ xs) ys open_ = held-append xs ys open_
held-append (Action.shut_down ∷ xs) ys open_ = held-append xs ys open_

-- A call leaves open what was open.
pub record IsBalanced {A : Type 0} (m : Trace A) : Type 0 where
  pub left : (open_ : List Resource) → held m.0 open_ ≡ some open_

-- A call that succeeds has opened one thing more; one that fails has not.
pub record Opens {A : Type 0} (r : Resource) (m : Trace A) : Type 0 where
  pub left :
      (open_ : List Resource)
      → held m.0 open_ ≡ some (elim m.1 [ ok _ ↦ r ∷ open_ | err _ ↦ open_ ])

module _ {A : Type 0} where
  pub check-IsBalanced : (text : Bytes) (r : Result A) → IsBalanced (check text r)
  check-IsBalanced text (ok a) = record { left = λ o. refl }
  check-IsBalanced text (err e) = record { left = λ o. refl }

  pub within-IsBalanced : (text : Bytes) (m : Trace A) → IsBalanced m → IsBalanced (within text m)
  within-IsBalanced text (xs, ok a) b = record { left = b.left }
  within-IsBalanced text (xs, err e) b = record { left = b.left }

  pub within-Opens :
      (text : Bytes) (r : Resource) (m : Trace A) → Opens r m → Opens r (within text m)
  within-Opens text r (xs, ok a) b = record { left = b.left }
  within-Opens text r (xs, err e) b = record { left = b.left }

module _ {A B : Type 0} where
  pub bind-IsBalanced :
      (m : Trace A) (f : A → Trace B)
      → IsBalanced m
      → ((a : A) → IsBalanced (f a))
      → IsBalanced (m >>= f)
  bind-IsBalanced (xs, ok a) f b k = record {
    left = λ o. rw (held-append, b.left o) ((k a).left o);
  }
  bind-IsBalanced (xs, err e) f b k = record { left = b.left }

  -- What a call has opened is closed behind the rest of the function.
  pub defer-IsBalanced :
      (r : Resource) (m : Trace A) (f : A → Trace B)
      → Opens r m
      → ((a : A) → IsBalanced (f a))
      → IsBalanced (m >>= λ a. deferring r (f a))
  defer-IsBalanced r (xs, ok a) f b k = record {
    left = λ o.
        rw (held-append, b.left o, held-append, (k a).left (r ∷ o)) (ground (arith, same_refl r));
  }
  defer-IsBalanced r (xs, err e) f b k = record { left = b.left }

  pub bind-Opens :
      (r : Resource) (m : Trace A) (f : A → Trace B)
      → IsBalanced m
      → ((a : A) → Opens r (f a))
      → Opens r (m >>= f)
  bind-Opens r (xs, ok a) f b k = record { left = λ o. rw (held-append, b.left o) ((k a).left o) }
  bind-Opens r (xs, err e) f b k = record { left = b.left }

pub acquire-Opens : (r : Resource) → Opens r (act (acquire r))
acquire-Opens r = record { left = λ o. refl }

-- Actions that open and close nothing.
abbrev pub IsQuiet : Action → Type 0
IsQuiet a = (open_ : List Resource) → held (a ∷ []) open_ ≡ some open_

module _ {A : Type 0} where
  -- A call behind an action that opens nothing, and one behind an action that opens `r`.
  pub act-IsBalanced :
      (a : Action) (m : Trace A) → IsQuiet a → IsBalanced m → IsBalanced (act a >> m)
  act-IsBalanced a m q b = bind-IsBalanced (act a) (λ _. m) (record { left = q }) (λ _. b)

  pub using-IsBalanced :
      (r : Resource) (m : Trace A) → IsBalanced m → IsBalanced (act (acquire r) >> deferring r m)
  using-IsBalanced r m b = defer-IsBalanced r (act (acquire r)) (λ _. m) (acquire-Opens r) (λ _. b)

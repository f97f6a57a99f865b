-- ===== src/Git/Actions.antt =====
-- What an action of git keeps of its commands, and what it takes to go on (backend/control/git_guard.py).
use ai_control_center.Base.{◌≡◌, refl, Bool, true, false, List, [], ◌∷◌, ◌++◌, All, All-append_last}
use ai_control_center.Git.{
  GitAnswer, Git, GitAction, Command, Flow, goes, ends, ◌>>=◌, ◌>>◌, pure, end_if, run, answer_of,
}

module _ (P : Command → Type 0) where
  -- The action runs only commands with the property.
  abbrev pub Keeps : {E A : Type 0} → GitAction E A → Type 0
  Keeps m = (h : List Command) → All P h → All P (m h).1

  bind-Keeps :
      {E A B : Type 0} (f : A → GitAction E B) (r : Flow E A) (h : List Command)
      → ((a : A) → Keeps (f a))
      → All P h
      → All P (◌>>=◌ (λ _. (r, h)) f []).1
  unfolding ◌>>=◌
  bind-Keeps f (goes a) h k p = k a h p
  bind-Keeps f (ends e) h k p = p

  pub then-Keeps :
      {E A B : Type 0} (m : GitAction E A) (f : A → GitAction E B)
      → Keeps m
      → ((a : A) → Keeps (f a))
      → Keeps (m >>= f)
  unfolding ◌>>=◌
  then-Keeps m f k l h p = bind-Keeps f (m h).0 (m h).1 l (k h p)

  pub unless-Keeps :
      {E B : Type 0} (test : Bool) (e : E) (m : GitAction E B)
      → (test ≡ false → Keeps m)
      → Keeps (end_if test e >> m)
  unfolding ◌>>=◌ ◌>>◌ end_if
  unless-Keeps true e m k h p = p
  unless-Keeps false e m k h p = k refl h p

  pub run-Keeps :
      {E B : Type 0} (git : Git) (command : Command) (f : GitAnswer → GitAction E B)
      → P command
      → ((a : GitAnswer) → Keeps (f a))
      → Keeps (run git command >>= f)
  unfolding ◌>>=◌ run
  run-Keeps git command f p k h q =
      k (answer_of (git h command)) (h ++ command ∷ []) (All-append_last P command h q p)

  pub pure-Keeps : (E : Type 0) {A : Type 0} (a : A) → Keeps (pure {E = E} a)
  unfolding pure
  pure-Keeps E a h p = p

-- An action that goes on has gone on at each of its steps.
bind_goes :
    {E A B : Type 0} (f : A → GitAction E B) (r : Flow E A) (h : List Command) (b : B)
    → (◌>>=◌ (λ _. (r, h)) f []).0 ≡ goes b
    → (a : A) × (r ≡ goes a) × ((f a h).0 ≡ goes b)
unfolding ◌>>=◌
bind_goes f (goes a) h b e = (a, refl, e)
bind_goes f (ends x) h b e = absurd (cc)

pub then_goes :
    {E A B : Type 0} (m : GitAction E A) (f : A → GitAction E B) (h : List Command) (b : B)
    → ((m >>= f) h).0 ≡ goes b
    → (a : A) × ((m h).0 ≡ goes a) × ((f a (m h).1).0 ≡ goes b)
unfolding ◌>>=◌
then_goes m f h b e = bind_goes f (m h).0 (m h).1 b e

pub unless_goes :
    {E B : Type 0} (test : Bool) (x : E) (m : GitAction E B) (h : List Command) (b : B)
    → ((end_if test x >> m) h).0 ≡ goes b
    → (test ≡ false) × ((m h).0 ≡ goes b)
unfolding ◌>>=◌ ◌>>◌ end_if
unless_goes true x m h b e = absurd (cc)
unless_goes false x m h b e = (refl, e)

pub run_goes :
    {E B : Type 0} (git : Git) (command : Command) (f : GitAnswer → GitAction E B)
    (h : List Command) (b : B)
    → ((run git command >>= f) h).0 ≡ goes b
    → (f (answer_of (git h command)) (h ++ command ∷ [])).0 ≡ goes b
unfolding ◌>>=◌ run
run_goes git command f h b e = e

-- ===== src/Schemax/Parts.antt =====
-- The parts of `validate_node` of src/schemax.cpp report the issues of the schema's parts.
use toolx_cpp.Prelude.{
  ◌≡◌, refl, Bool, true, false, List, [], ◌∷◌, ◌++◌, append_assoc, append-nil, Option, none, some,
  if◌then◌else◌,
}
use toolx_cpp.Schemax.Issue.{Issue}
use toolx_cpp.Schemax.Validate.{
  Flow, on, returned, null_used, ◌>>=◌, Part, after_call, demand, push_issue,
}
use toolx_cpp.Schemax.Issues.{unless, about}

-- A part that finds these issues: it adds them all, or returns with the first under `fail_fast`.
abbrev pub found : Bool → List Issue → List Issue → Flow
found fail_fast out [] = on out
found true out (i ∷ is) = returned (out ++ i ∷ [])
found false out (i ∷ is) = on (out ++ i ∷ is)

-- Under `fail_fast` a part is reached with no issue only.
abbrev pub Reached : Bool → List Issue → Type 0
Reached true out = out ≡ []
Reached false out = Unit {0}

abbrev pub Finds : Bool → Part → List Issue → Type 0
Finds fail_fast part is =
    (out : List Issue) → Reached fail_fast out → part out ≡ found fail_fast out is

pub Finds-nothing : (o : Bool) → Finds o on []
Finds-nothing o out h = refl

pub Finds-demand : (o b : Bool) (i : Issue) → Finds o (demand o b i) (unless b i)
unfolding push_issue
Finds-demand o true i out h = refl
Finds-demand true false i out h = refl
Finds-demand false false i out h = refl

pub Finds-then :
    (o : Bool) (p q : Part) (is js : List Issue)
    → Finds o p is
    → Finds o q js
    → Finds o (λ out. p out >>= q) (is ++ js)
Finds-then o p q [] js h k out r = rw (h out r) (k out r)
Finds-then true p q (i ∷ is) js h k out r = rw (h out r) refl
Finds-then false p q (i ∷ is) [] h k out r = rw (h out r, k (out ++ i ∷ is) tt, append-nil is) refl
Finds-then false p q (i ∷ is) (j ∷ js) h k out r =
    rw (h out r, k (out ++ i ∷ is) tt, append_assoc out (i ∷ is) (j ∷ js)) refl

pub Finds-call :
    (o : Bool) (p : Part) (is : List Issue)
    → Finds o p is
    → Finds o (λ out. after_call o (p out)) is
Finds-call true p [] h out r = rw (h out r, r) refl
Finds-call true p (i ∷ is) h out r = rw (h out r, r) refl
Finds-call false p [] h out r = rw (h out r) refl
Finds-call false p (i ∷ is) h out r = rw (h out r) refl

pub Finds-if :
    (o b : Bool) (p : Part) (is : List Issue)
    → Finds o p is
    → Finds o (λ out. if b then p out else on out) (if b then is else [])
Finds-if o true p is h = h
Finds-if o false p is h = Finds-nothing o

-- A part about a value, where there is one.
pub Finds-about {ℓ} :
    {A : Type ℓ} (o : Bool) (a : Option A) (f : A → Part) (g : A → List Issue)
    → ((x : A) → a ≡ some x → Finds o (f x) (g x))
    → Finds o (λ out. elim a [ none ↦ on out | some x ↦ f x out ]) (about a g)
Finds-about o none f g h = Finds-nothing o
Finds-about o (some x) f g h = h x refl

-- A part about a value that is there.
pub Finds-deref {ℓ} :
    {A : Type ℓ} (o : Bool) (a : Option A) (f : A → Part) (g : A → List Issue)
    → (x : A) × (a ≡ some x)
    → ((x : A) → a ≡ some x → Finds o (f x) (g x))
    → Finds o (λ out. elim a [ none ↦ null_used | some x ↦ f x out ]) (about a g)
Finds-deref o none f g h k = absurd (cc (h.1))
Finds-deref o (some x) f g h k = k x refl

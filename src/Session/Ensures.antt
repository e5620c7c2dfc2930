-- ===== src/Session/Ensures.antt =====
-- Postconditions of the method calls of server/msx_v3.py's model: one of the value and session that a
-- call returns, one of what it raises and leaves.
use msx_ai.Base.{◌≡◌, ap}
use msx_ai.Session.{Session, Signal, Did, did, threw, Call, ◌>>-◌}

abbrev pub Ensures :
    {A : Type 0} → (A → Session → Type 0) → (Signal → Session → Type 0) → Did A → Type 0
Ensures P Q (did a t) = P a t
Ensures P Q (threw e t) = Q e t

pub Ensures->>- :
    {A B : Type 0} (P : A → Session → Type 0) (R : B → Session → Type 0)
    (Q : Signal → Session → Type 0) (call : Call A) (rest : A → Call B) (s : Session)
    → Ensures P Q (call s)
    → ((a : A) (t : Session) → P a t → Ensures R Q (rest a t))
    → Ensures R Q ((call >>- rest) s)
Ensures->>- {A} {B} P R Q call rest s h k = after (call s) h
  where
    after :
        (d : Did A)
        → Ensures P Q d
        → Ensures R Q (elim d [ did a t ↦ rest a t | threw e t ↦ threw e t ])
    after (did a t) p = k a t p
    after (threw e t) q = q

pub Ensures-weaken :
    {A : Type 0} (P R : A → Session → Type 0) (Q S : Signal → Session → Type 0) (d : Did A)
    → Ensures P Q d
    → ((a : A) (t : Session) → P a t → R a t)
    → ((e : Signal) (t : Session) → Q e t → S e t)
    → Ensures R S d
Ensures-weaken P R Q S (did a t) h f g = f a t h
Ensures-weaken P R Q S (threw e t) h f g = g e t h

-- A chain whose first call returns goes on from there.
pub returned :
    {A B : Type 0} (call : Call A) (rest : A → Call B) (s : Session) (a : A) (t : Session)
    → call s ≡ did a t
    → (call >>- rest) s ≡ rest a t
returned {A} {B} call rest s a t e =
    ap (λ d. elim d as (λ _. Did B) [ did b u ↦ rest b u | threw x u ↦ threw x u ]) e

-- ===== src/Modules/Rules.antt =====
-- How to show a property of the context that a handler ends with.
-- To show a property of the context that a branch ends with, show it for each branch.
use s_ingress.Common.{Bool, Option, false, if◌then◌else◌, none, refl, some, true, ◌≡◌}
use s_ingress.Proxy.Context.{RequestContext}

pub if_rule :
    {X : Type 0} (Q : RequestContext → Type 0) (b : Bool) (x y : X × RequestContext)
    → Q x.1
    → Q y.1
    → Q (if b then x else y).1
if_rule Q true x y h k = h
if_rule Q false x y h k = k

pub true_rule :
    {X : Type 0} (Q : RequestContext → Type 0) (b : Bool) (x y : X × RequestContext)
    → b ≡ true
    → Q x.1
    → Q (if b then x else y).1
true_rule Q true x y e h = h
true_rule Q false x y e h = cc

pub false_rule :
    {X : Type 0} (Q : RequestContext → Type 0) (b : Bool) (x y : X × RequestContext)
    → b ≡ false
    → Q y.1
    → Q (if b then x else y).1
false_rule Q false x y e h = h
false_rule Q true x y e h = cc

-- The rule for an option that also says where the value comes from.
pub option_eq_rule :
    {A X : Type 0} (Q : RequestContext → Type 0) (o : Option A) (x : X × RequestContext)
    (f : A → X × RequestContext)
    → Q x.1
    → ((a : A) → o ≡ some a → Q (f a).1)
    → Q (elim o as (λ _. X × RequestContext) [ none ↦ x | some a ↦ f a ]).1
option_eq_rule Q none x f h k = h
option_eq_rule Q (some a) x f h k = k a refl

pub option_rule :
    {A X : Type 0} (Q : RequestContext → Type 0) (o : Option A) (x : X × RequestContext)
    (f : A → X × RequestContext)
    → Q x.1
    → ((a : A) → Q (f a).1)
    → Q (elim o as (λ _. X × RequestContext) [ none ↦ x | some a ↦ f a ]).1
option_rule Q none x f h k = h
option_rule Q (some a) x f h k = k a

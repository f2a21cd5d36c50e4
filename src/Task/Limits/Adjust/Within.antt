-- ===== src/Task/Limits/Adjust/Within.antt =====
-- The links after an adjustment are those before it, each within what it may do to one.
use aggligator.Base.{ℕ, zero, suc, ◌≡◌, refl, subst, Option, none, some, List, [], ◌∷◌, set}
use aggligator.Base.Result.{ok}
use aggligator.Link.{LinkInt}
use aggligator.Task.Defs.{link_at}
use aggligator.Task.Limits.Adjust.{each}
use aggligator.Task.Limits.Adjust.Change.{Within, unchanged-Within, trans-Within}

module _ {TX : Type 0} where
  -- The same links, each within what its adjustment may do.
  abbrev pub AllWithin : List (Option (LinkInt TX)) → List (Option (LinkInt TX)) → Type 0
  AllWithin [] [] = Unit {0}
  AllWithin (none ∷ ls) (none ∷ ls') = AllWithin ls ls'
  AllWithin (some l ∷ ls) (some l' ∷ ls') = Within l l' × AllWithin ls ls'
  AllWithin _ _ = ⊥

  pub unchanged-AllWithin : (ls : List (Option (LinkInt TX))) → AllWithin ls ls
  unchanged-AllWithin [] = tt
  unchanged-AllWithin (none ∷ ls) = unchanged-AllWithin ls
  unchanged-AllWithin (some l ∷ ls) = (unchanged-Within l, unchanged-AllWithin ls)

  pub each-AllWithin :
      (f : LinkInt TX → LinkInt TX) (ls : List (Option (LinkInt TX)))
      → ((l : LinkInt TX) → Within l (f l))
      → AllWithin ls (each f ls)
  each-AllWithin f [] h = tt
  each-AllWithin f (none ∷ ls) h = each-AllWithin f ls h
  each-AllWithin f (some l ∷ ls) h = (h l, each-AllWithin f ls h)

  pub trans-AllWithin :
      (as' bs cs : List (Option (LinkInt TX)))
      → AllWithin as' bs
      → AllWithin bs cs
      → AllWithin as' cs
  trans-AllWithin [] [] [] x y = tt
  trans-AllWithin [] [] (_ ∷ cs) x y = elim y [ ]
  trans-AllWithin [] (_ ∷ bs) cs x y = elim x [ ]
  trans-AllWithin (none ∷ as') [] cs x y = elim x [ ]
  trans-AllWithin (none ∷ as') (none ∷ bs) [] x y = elim y [ ]
  trans-AllWithin (none ∷ as') (none ∷ bs) (some c ∷ cs) x y = elim y [ ]
  trans-AllWithin (none ∷ as') (some b ∷ bs) cs x y = elim x [ ]
  trans-AllWithin (some a ∷ as') [] cs x y = elim x [ ]
  trans-AllWithin (some a ∷ as') (none ∷ bs) cs x y = elim x [ ]
  trans-AllWithin (some a ∷ as') (some b ∷ bs) [] x y = elim y [ ]
  trans-AllWithin (some a ∷ as') (some b ∷ bs) (none ∷ cs) x y = elim y [ ]
  trans-AllWithin (none ∷ as') (none ∷ bs) (none ∷ cs) x y = trans-AllWithin as' bs cs x y
  trans-AllWithin (some a ∷ as') (some b ∷ bs) (some c ∷ cs) x y =
      (trans-Within x.0 y.0, trans-AllWithin as' bs cs x.1 y.1)

  pub put-AllWithin :
      (ls : List (Option (LinkInt TX))) (id : ℕ) (l l' : LinkInt TX)
      → link_at ls id ≡ ok l
      → Within l l'
      → AllWithin ls (set ls id (some l'))
  put-AllWithin [] id l l' e h = tt
  put-AllWithin (none ∷ ls) zero l l' e h = cc
  put-AllWithin (some k ∷ ls) zero l l' e h =
      (let z : l ≡ k = cc in subst (λ x. Within x l') z h, unchanged-AllWithin ls)
  put-AllWithin (none ∷ ls) (suc id) l l' e h = put-AllWithin ls id l l' e h
  put-AllWithin (some k ∷ ls) (suc id) l l' e h = (unchanged-Within k, put-AllWithin ls id l l' e h)

  -- A link after comes from one before, and the other way around.
  pub AllWithin-before :
      (ls ls' : List (Option (LinkInt TX))) (j : ℕ) (l' : LinkInt TX)
      → AllWithin ls ls'
      → link_at ls' j ≡ ok l'
      → (l : LinkInt TX) × (link_at ls j ≡ ok l) × Within l l'
  AllWithin-before [] [] j l' h e = cc
  AllWithin-before [] (_ ∷ ls') j l' h e = elim h [ ]
  AllWithin-before (none ∷ ls) [] j l' h e = elim h [ ]
  AllWithin-before (none ∷ ls) (some k ∷ ls') j l' h e = elim h [ ]
  AllWithin-before (some l ∷ ls) [] j l' h e = elim h [ ]
  AllWithin-before (some l ∷ ls) (none ∷ ls') j l' h e = elim h [ ]
  AllWithin-before (none ∷ ls) (none ∷ ls') zero l' h e = cc
  AllWithin-before (some l ∷ ls) (some k ∷ ls') zero l' h e =
      (l, refl, let z : k ≡ l' = cc in subst (Within l) z h.0)
  AllWithin-before (none ∷ ls) (none ∷ ls') (suc j) l' h e = AllWithin-before ls ls' j l' h e
  AllWithin-before (some l ∷ ls) (some k ∷ ls') (suc j) l' h e = AllWithin-before ls ls' j l' h.1 e

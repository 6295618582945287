-- ===== src/Raft/Peers/Laws.antt =====
-- The maps from node to progress: what an update keeps, and how the sizes of sets compare.
use mathlib.Core.Option
use raft_distributed_log_rs.Prelude.{
  Bool-cases, List, [], arith, false, if◌then◌else◌, inl, inr, length, refl, some, suc, true, ◌+◌,
  ◌<◌, ◌↔◌, ◌∙◌, ◌∷◌, ◌≡◌, ◌≢◌, ◌≤◌,
}
use raft_distributed_log_rs.Raft.Peers.{Peers, contains_key, get, member, modify}
use raft_distributed_log_rs.Raft.Types.{NodeId, Progress, node_eq}

pub node_eq_iff : (a b : NodeId) → (node_eq a b ≡ true) ↔ (a ≡ b)
node_eq_iff a b = ground arith

-- An update adds and removes no key.
pub contains_key-modify :
    (k j : NodeId) (f : Progress → Progress) (m : Peers)
    → contains_key k (modify j f m) ≡ contains_key k m
unfolding contains_key modify
contains_key-modify k j f [] = refl
contains_key-modify k j f ((i, p) ∷ m) = ground (arith, contains_key-modify k j f m)

pub length-modify :
    (j : NodeId) (f : Progress → Progress) (m : Peers) → length (modify j f m) ≡ length m
unfolding modify
length-modify j f [] = refl
length-modify j f ((i, p) ∷ m) = ground (arith, length-modify j f m)

pub get-modify :
    (k j : NodeId) (f : Progress → Progress) (m : Peers)
    → get k (modify j f m) ≡ (if node_eq j k then Option.map f (get k m) else get k m)
unfolding get modify
get-modify k j f [] = ground arith
get-modify k j f ((i, p) ∷ m) = ground (arith, get-modify k j f m)

pub contains_key_of_get :
    (k : NodeId) (m : Peers) (p : Progress) → get k m ≡ some p → contains_key k m ≡ true
unfolding contains_key get
contains_key_of_get k [] p h = cc
contains_key_of_get k ((i, q) ∷ m) p h = ground (arith, contains_key_of_get k m p)

pub get-modify_self :
    (k : NodeId) (p : Progress) (m : Peers)
    → contains_key k m ≡ true
    → get k (modify k (λ _. p) m) ≡ some p
unfolding contains_key get modify
get-modify_self k p [] h = cc
get-modify_self k p ((i, q) ∷ m) h = ground (arith, get-modify_self k p m)

-- No node stands twice.
abbrev pub Distinct : List NodeId → Type 0
Distinct [] = Unit {0}
Distinct (k ∷ l) = (member k l ≡ false) × Distinct l

-- Every node of the list is a key.
abbrev pub AllKeys : Peers → List NodeId → Type 0
AllKeys m [] = Unit {0}
AllKeys m (k ∷ l) = (contains_key k m ≡ true) × AllKeys m l

pub AllKeys-modify :
    (j : NodeId) (f : Progress → Progress) (m : Peers) (l : List NodeId)
    → AllKeys m l
    → AllKeys (modify j f m) l
AllKeys-modify j f m [] h = tt
AllKeys-modify j f m (k ∷ l) h = (contains_key-modify k j f m ∙ h.0, AllKeys-modify j f m l h.1)

remove : NodeId → Peers → Peers
remove k [] = []
remove k ((j, p) ∷ m) = if node_eq j k then m else (j, p) ∷ remove k m

length-remove :
    (k : NodeId) (m : Peers) → contains_key k m ≡ true → length m ≡ suc (length (remove k m))
unfolding contains_key remove
length-remove k [] h = cc
length-remove k ((j, p) ∷ m) h = ground (arith, length-remove k m)

contains_key-remove :
    (k i : NodeId) (m : Peers)
    → k ≢ i
    → contains_key i m ≡ true
    → contains_key i (remove k m) ≡ true
unfolding contains_key remove
contains_key-remove k i [] ne h = h
contains_key-remove k i ((j, p) ∷ m) ne h = ground (arith, contains_key-remove k i m ne)

AllKeys-remove :
    (k : NodeId) (m : Peers) (l : List NodeId)
    → member k l ≡ false
    → AllKeys m l
    → AllKeys (remove k m) l
unfolding member
AllKeys-remove k m [] h a = tt
AllKeys-remove k m (i ∷ l) h a =
    (contains_key-remove k i m (λ e. ground arith) a.0, AllKeys-remove k m l (ground arith) a.1)

abbrev pub Share : List NodeId → List NodeId → Type 0
Share a b = (k : NodeId) × (member k a ≡ true) × (member k b ≡ true)

pub member_self : (k : NodeId) (l : List NodeId) → member k (k ∷ l) ≡ true
unfolding member
member_self k l = ground arith

member-tail : (k j : NodeId) (l : List NodeId) → member k l ≡ true → member k (j ∷ l) ≡ true
unfolding member
member-tail k j l h = ground arith

-- Distinct keys are no more than the entries of the map, and two lists of distinct keys that are
-- together more share a key.
pub length-le : (m : Peers) (a : List NodeId) → Distinct a → AllKeys m a → length a ≤ length m
length-le m [] d k = omega arith
length-le m (x ∷ a) d k =
    omega
      (arith, length-remove x m k.0, length-le (remove x m) a d.1 (AllKeys-remove x m a d.0 k.1))

pub overlap :
    (m : Peers) (a b : List NodeId)
    → Distinct a
    → Distinct b
    → AllKeys m a
    → AllKeys m b
    → length m < length a + length b
    → Share a b
overlap m [] b da db ka kb h = absurd (omega (arith, length-le m b db kb))
overlap m (x ∷ a) b da db ka kb h = elim (Bool-cases (member x b)) [
  | inl both ↦ (x, member_self x a, both)
  | inr apart ↦
      let (k, in_a, in_b) =
        overlap (remove x m) a b da.1 db (AllKeys-remove x m a da.0 ka.1)
          (AllKeys-remove x m b apart kb) (omega (arith, length-remove x m ka.0)) in
      (k, member-tail k x a in_a, in_b)
]

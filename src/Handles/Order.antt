-- ===== src/Handles/Order.antt =====
-- The order of client handles and the sets that stand on it, Pulsar/include/TypeDefinitions.h.
use pulsar_server_framework.Prelude.{
  ◌≡◌, refl, inl, inr, All, Bool-cases, not, ◌&&◌, [], ◌∷◌, true, false, ◌||◌, if◌then◌else◌, arith,
}
use pulsar_server_framework.Handles.{ClientHandle, ClientHandles, less, equal, insert, contains}

-- `operator<` is a strict total order, and what it does not separate `operator==` holds equal.
less_order :
    (a b c : ClientHandle)
    → (less a a ≡ false)
      × (less a b ≡ true → less b c ≡ true → less a c ≡ true)
      × (less a b ≡ true → less b a ≡ false)
      × (equal a b ≡ (if less a b then false else if less b a then false else true))
unfolding less equal
less_order a b c = (ground arith, λ h k. ground arith, λ h. ground arith, ground arith)

equal-eq : (a b : ClientHandle) → equal a b ≡ true → a ≡ b
unfolding equal
equal-eq a b h = ground arith

-- A set holds what was inserted and what it held before.
pub contains-insert :
    (g h : ClientHandle) (s : ClientHandles) → contains g (insert h s) ≡ (equal g h || contains g s)
unfolding contains insert
contains-insert g h [] = ground arith
contains-insert g h (x ∷ xs) =
    ground (arith, (less_order h x x).3, equal-eq h x, contains-insert g h xs)

-- Ordered by operator<, so that no handle stands twice.
abbrev pub IsOrdered : ClientHandles → Type 0
IsOrdered [] = Unit {0}
IsOrdered (x ∷ r) = All (λ y. (less x y ≡ true) × (equal x y ≡ false)) r × IsOrdered r

before_all :
    (h x : ClientHandle) (r : ClientHandles)
    → less h x ≡ true
    → All (λ y. (less x y ≡ true) × (equal x y ≡ false)) r
    → All (λ y. (less h y ≡ true) × (equal h y ≡ false)) r
before_all h x [] l v = tt
before_all h x (y ∷ r) l ((m, _), vs) =
    let t = (less_order h x y).1 l m in
    ((t, ground (arith, (less_order h y y).3, t)), before_all h x r l vs)

insert-All :
    (P : ClientHandle → Type 0) (h : ClientHandle) (s : ClientHandles)
    → P h
    → All P s
    → All P (insert h s)
unfolding insert
insert-All P h [] p v = (p, tt)
insert-All P h (x ∷ xs) p (v, vs) =
    let later : All P (x ∷ insert h xs) = (v, insert-All P h xs p vs) in
    let here : All P (h ∷ x ∷ xs) = (p, (v, vs)) in
    let kept : All P (x ∷ xs) = (v, vs) in ground arith

insert-IsOrdered : (h : ClientHandle) (s : ClientHandles) → IsOrdered s → IsOrdered (insert h s)
unfolding insert
insert-IsOrdered h [] o = (tt, tt)
insert-IsOrdered h (x ∷ xs) (v, vs) = elim (Bool-cases (less h x)) [
  | inl y ↦ rw y (((y, ground (arith, (less_order h x x).3, y)), before_all h x xs y v), (v, vs))
  | inr n ↦ elim (Bool-cases (less x h)) [
    | inl y ↦
        rw (n, y)
          (
            insert-All (λ z. (less x z ≡ true) × (equal x z ≡ false)) h xs
                (y, ground (arith, (less_order x h h).3, y)) v,
            insert-IsOrdered h xs vs,
          )
    | inr m ↦ rw (n, m) (v, vs)
  ]
]

insert-twice : (h : ClientHandle) (s : ClientHandles) → insert h (insert h s) ≡ insert h s
unfolding insert
insert-twice h [] = rw (less_order h h h).0 refl
insert-twice h (x ∷ xs) = elim (Bool-cases (less h x)) [
  | inl y ↦ simp (y, (less_order h h h).0)
  | inr n ↦ elim (Bool-cases (less x h)) [
    | inl y ↦ simp (n, y, insert-twice h xs)
    | inr m ↦ simp (n, m)
  ]
]

-- operator< is transitive and holds one way round precisely of handles that operator== tells apart. A
-- set ordered by it, in which no handle stands twice, stays one when a handle is inserted; it then holds
-- that handle and what it held before; and a second insertion changes nothing.
pub insert-IsSet :
    (g h i : ClientHandle) (s : ClientHandles)
    → IsOrdered s
    → ((less g h && (less h i && not (less g i))) ≡ false)
      × (equal g h ≡ not (less g h || less h g))
      × ((less g h && less h g) ≡ false)
      × IsOrdered (insert h s)
      × (contains g (insert h s) ≡ (equal g h || contains g s))
      × (insert h (insert h s) ≡ insert h s)
insert-IsSet g h i s o = (
  ground (arith, (less_order g h i).1),
  ground (arith, (less_order g h h).3, (less_order g h h).2),
  ground (arith, (less_order g h h).2),
  insert-IsOrdered h s o,
  contains-insert g h s,
  insert-twice h s,
)

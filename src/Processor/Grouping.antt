-- ===== src/Processor/Grouping.antt =====
-- How `StoreMessage` of Pulsar/src/RequestProcessor.cpp sorts handles by server.
use pulsar_server_framework.Prelude.{
  ℕ, ◌<◌, ◌≡◌, ◌∙◌, refl, ap, List, [], ◌∷◌, ◌++◌, Bool, true, false, ◌==◌, if◌then◌else◌, length,
  All, arith, inl, inr, sym, ◌⊎◌, lt→ltb, le→ltb,
}
use pulsar_server_framework.Handles.{ClientHandle}
use pulsar_server_framework.Processor.{ServerAndHandles, add_handle, servers_and_handles}

-- What the map has for an address.
pub handles_at : ℕ → List ServerAndHandles → List ClientHandle
handles_at a [] = []
handles_at a (g ∷ gs) =
    let rest = handles_at a gs in if g.server_address == a then g.handles else rest

-- The handles of one server, in their order.
pub of_server : ℕ → List ClientHandle → List ClientHandle
of_server a [] = []
of_server a (h ∷ hs) =
    let rest = of_server a hs in if h.server_ipv4_address == a then h ∷ rest else rest

abbrev IsAbove : ℕ → List ServerAndHandles → Type 0
IsAbove a gs = All (λ g. a < g.server_address) gs

-- Addresses ascend, so each has one entry, and no entry is empty.
abbrev pub IsGrouped : List ServerAndHandles → Type 0
IsGrouped [] = Unit
IsGrouped (g ∷ gs) = IsAbove g.server_address gs × (0 < length g.handles) × IsGrouped gs

IsAbove-trans : (a b : ℕ) (gs : List ServerAndHandles) → a < b → IsAbove b gs → IsAbove a gs
IsAbove-trans a b [] h k = tt
IsAbove-trans a b (g ∷ gs) h (k, ks) = (omega arith, IsAbove-trans a b gs h ks)

handles_at-IsAbove : (a : ℕ) (gs : List ServerAndHandles) → IsAbove a gs → handles_at a gs ≡ []
unfolding handles_at
handles_at-IsAbove a [] k = refl
handles_at-IsAbove a (g ∷ gs) (k, ks) = ground (arith, handles_at-IsAbove a gs ks)

add_handle-IsAbove :
    (a : ℕ) (h : ClientHandle) (gs : List ServerAndHandles)
    → a < h.server_ipv4_address
    → IsAbove a gs
    → IsAbove a (add_handle h gs)
unfolding add_handle
add_handle-IsAbove a h [] k l = (k, tt)
add_handle-IsAbove a h (g ∷ gs) k (l, ls) = ground (arith, add_handle-IsAbove a h gs k ls)

length-end : (xs : List ClientHandle) (x : ClientHandle) → 0 < length (xs ++ x ∷ [])
length-end [] x = omega arith
length-end (y ∷ xs) x = omega arith

three_ways : (a b : ℕ) → (a ≡ b) ⊎ ((a < b) ⊎ (b < a))
three_ways a b = ground arith

==_same : (a b : ℕ) → a ≡ b → (a == b) ≡ true
==_same a b e = ground arith

==_lt : (a b : ℕ) → a < b → (a == b) ≡ false
==_lt a b h = ground arith

==_gt : (a b : ℕ) → b < a → (a == b) ≡ false
==_gt a b h = ground arith

add_handle-IsGrouped :
    (h : ClientHandle) (gs : List ServerAndHandles) → IsGrouped gs → IsGrouped (add_handle h gs)
unfolding add_handle
add_handle-IsGrouped h [] k = (tt, omega arith, tt)
add_handle-IsGrouped h (g ∷ gs) (above, pos, k) =
    elim (three_ways h.server_ipv4_address g.server_address) [
      | inl same ↦ simp (==_same _ _ same) (above, length-end g.handles h, k)
      | inr (inl lt) ↦
          simp (==_lt _ _ lt, lt→ltb _ _ lt)
            ((lt, IsAbove-trans _ _ gs lt above), omega arith, (above, pos, k))
      | inr (inr gt) ↦
          simp (==_gt _ _ gt, le→ltb h.server_ipv4_address g.server_address (omega arith))
            (add_handle-IsAbove g.server_address h gs gt above, pos, add_handle-IsGrouped h gs k)
    ]

append_nil : (xs : List ClientHandle) → xs ++ [] ≡ xs
append_nil [] = refl
append_nil (x ∷ xs) = ap (◌∷◌ x) (append_nil xs)

handles_at-add_handle :
    (a : ℕ) (h : ClientHandle) (gs : List ServerAndHandles)
    → IsGrouped gs
    → handles_at a (add_handle h gs)
      ≡ handles_at a gs ++ (if h.server_ipv4_address == a then h ∷ [] else [])
unfolding handles_at add_handle
handles_at-add_handle a h [] k = refl
handles_at-add_handle a h (g ∷ gs) (above, pos, k) =
    elim (three_ways h.server_ipv4_address g.server_address) [
      | inl same ↦ ground (arith, same, append_nil (handles_at a gs))
      | inr (inl lt) ↦ ground (
        arith,
        append_nil (handles_at a (g ∷ gs)),
        handles_at-IsAbove a (g ∷ gs),
        IsAbove-trans h.server_ipv4_address g.server_address gs lt above,
      )
      | inr (inr gt) ↦ ground (arith, append_nil g.handles, handles_at-add_handle a h gs k)
    ]

servers_and_handles-IsGrouped :
    (groups : List ServerAndHandles) (hs : List ClientHandle)
    → IsGrouped groups
    → IsGrouped (servers_and_handles groups hs)
unfolding servers_and_handles
servers_and_handles-IsGrouped groups [] k = k
servers_and_handles-IsGrouped groups (h ∷ hs) k =
    servers_and_handles-IsGrouped (add_handle h groups) hs (add_handle-IsGrouped h groups k)

append_assoc : (xs ys zs : List ClientHandle) → (xs ++ ys) ++ zs ≡ xs ++ (ys ++ zs)
append_assoc [] ys zs = refl
append_assoc (x ∷ xs) ys zs = ap (◌∷◌ x) (append_assoc xs ys zs)

one_more :
    (b : Bool) (h : ClientHandle) (hs : List ClientHandle)
    → (if b then h ∷ [] else []) ++ hs ≡ (if b then h ∷ hs else hs)
one_more true h hs = refl
one_more false h hs = refl

handles_at-servers :
    (a : ℕ) (groups : List ServerAndHandles) (hs : List ClientHandle)
    → IsGrouped groups
    → handles_at a (servers_and_handles groups hs) ≡ handles_at a groups ++ of_server a hs
unfolding servers_and_handles of_server
handles_at-servers a groups [] k = sym (append_nil (handles_at a groups))
handles_at-servers a groups (h ∷ hs) k =
    handles_at-servers a (add_handle h groups) hs (add_handle-IsGrouped h groups k)
    ∙ (ap (◌++ of_server a hs) (handles_at-add_handle a h groups k)
        ∙ (append_assoc (handles_at a groups) _ (of_server a hs)
            ∙ ap (handles_at a groups ++◌)
                (one_more (h.server_ipv4_address == a) h (of_server a hs))))

-- StoreMessage's map has one entry for each server that a handle names, none of them empty, and under
-- every address precisely the handles of that server, in their order.
pub servers_and_handles_lem :
    (hs : List ClientHandle) (a : ℕ)
    → IsGrouped (servers_and_handles [] hs)
      × (handles_at a (servers_and_handles [] hs) ≡ of_server a hs)
unfolding handles_at
servers_and_handles_lem hs a =
    (servers_and_handles-IsGrouped [] hs tt, handles_at-servers a [] hs tt)

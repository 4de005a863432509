-- ===== src/Topology/Shown.antt =====
-- Which flows and which hosts the map shows.
use mathlib.Core.List.{Perm}
use undertow.Base.{
  ℕ, zero, suc, ◌≤◌, ◌≡◌, sym, ap, subst, inl, inr, String, Bool, true, false, not, ◌&&◌, ◌||◌,
  List, [], ◌∷◌, ◌++◌, arith, length, take, drop, take-append-drop, length-take, All, Bool-cases,
  ltb-false, is_some, min, some, if_app,
}
use undertow.Base.Eq.{◌==◌, string_eq}
use undertow.Base.Dict.{get, get-put}
use undertow.Base.Sort.{sort, desc, IsSorted, sort-perm, sort-desc-IsSorted, length-sort}
use undertow.Packet.{FlowStat}
use undertow.Topology.{shown_flows, is_local_ip, Nodes, add_node, group_nodes}

All-map {ℓ} :
    {A : Type ℓ} (P Q : A → Type 0) (xs : List A) → ((a : A) → P a → Q a) → All P xs → All Q xs
All-map P Q [] h a = tt
All-map P Q (x ∷ xs) h a = (h x a.0, All-map P Q xs h a.1)

All-drop {ℓ} : {A : Type ℓ} (P : A → Type 0) (n : ℕ) (xs : List A) → All P xs → All P (drop n xs)
All-drop P zero xs a = a
All-drop P (suc n) [] a = tt
All-drop P (suc n) (x ∷ xs) a = All-drop P n xs a.1

abbrev pub bytes : FlowStat → ℕ
bytes f = f.bytes_sent

-- In a sorted list, what is kept is not smaller than what is dropped.
sorted_cut :
    (n : ℕ) (fs : List FlowStat)
    → IsSorted (desc bytes) fs
    → All (λ x. All (λ y. bytes y ≤ bytes x) (drop n fs)) (take n fs)
sorted_cut zero fs s = tt
sorted_cut (suc n) [] s = tt
sorted_cut (suc n) (x ∷ fs) s = (
  All-map (λ y. desc bytes y x ≡ false) (λ y. bytes y ≤ bytes x) (drop n fs)
      (λ y e. ltb-false (bytes x) (bytes y) e) (All-drop (λ y. desc bytes y x ≡ false) n fs s.0),
  sorted_cut n fs s.1,
)

-- The flows shown are ten, or all where there are fewer; with the ones left out they are the flows
-- of the snapshot; and none that is left out has more bytes than one that is shown.
pub shown_flows_exact :
    (flows : List FlowStat)
    → (left : List FlowStat) × Perm (shown_flows flows ++ left) flows
      × All (λ x. All (λ y. bytes y ≤ bytes x) left) (shown_flows flows)
      × (length (shown_flows flows) ≡ min 10 (length flows))
unfolding shown_flows
shown_flows_exact flows = (
  drop (min 10 (length flows)) (sort (desc bytes) flows),
  subst (λ l. Perm l flows)
      (sym (take-append-drop (min 10 (length flows)) (sort (desc bytes) flows)))
      (sort-perm (desc bytes) flows),
  sorted_cut (min 10 (length flows)) (sort (desc bytes) flows) (sort-desc-IsSorted bytes flows),
  omega (
    arith,
    length-take (min 10 (length flows)) (sort (desc bytes) flows),
    length-sort (desc bytes) flows,
  ),
)

-- An address is an end of a flow.
abbrev pub is_end : List FlowStat → String → Bool
is_end [] ip = false
is_end (f ∷ fs) ip = f.key.src_ip == ip || f.key.dst_ip == ip || is_end fs ip

abbrev pub in_local : Nodes → String → Bool
in_local n ip = is_some (get n.local_nodes ip)

abbrev pub in_remote : Nodes → String → Bool
in_remote n ip = is_some (get n.remote_nodes ip)

add_node_exact :
    (n : Nodes) (a ip : String)
    → (in_local (add_node n a) ip ≡ (is_local_ip ip && a == ip || in_local n ip))
      × (in_remote (add_node n a) ip ≡ (not (is_local_ip ip) && a == ip || in_remote n ip))
unfolding add_node
add_node_exact n a ip = elim (Bool-cases (is_local_ip a)) [
  | inl l ↦
      rw (l, get-put, if_app is_some (a == ip) (some true) (get n.local_nodes ip))
        (ground (arith, l, same))
  | inr l ↦
      rw (l, get-put, if_app is_some (a == ip) (some true) (get n.remote_nodes ip))
        (ground (arith, l, same))
]
  where
    same : a == ip ≡ true → is_local_ip a ≡ is_local_ip ip
    same e = ap is_local_ip ((string_eq.same_iff a ip).0 e)

-- Grouping adds to the local nodes the local ends of the flows, and to the remote nodes the other
-- ends.
pub group_nodes_exact :
    (n : Nodes) (fs : List FlowStat) (ip : String)
    → (in_local (group_nodes n fs) ip ≡ (is_local_ip ip && is_end fs ip || in_local n ip))
      × (in_remote (group_nodes n fs) ip ≡ (not (is_local_ip ip) && is_end fs ip || in_remote n ip))
unfolding group_nodes
group_nodes_exact n [] ip = (ground arith, ground arith)
group_nodes_exact n (f ∷ fs) ip =
    let rest = group_nodes_exact (add_node (add_node n f.key.src_ip) f.key.dst_ip) fs ip in
    let target = add_node_exact (add_node n f.key.src_ip) f.key.dst_ip ip in
    let source = add_node_exact n f.key.src_ip ip in
    (ground (arith, rest.0, target.0, source.0), ground (arith, rest.1, target.1, source.1))

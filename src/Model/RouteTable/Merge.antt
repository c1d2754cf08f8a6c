-- ===== src/Model/RouteTable/Merge.antt =====
-- The loops of `Register` and `Unregister` over a list of devices.
use devagent.Base.{
  String, ◌≡◌, refl, ◌⊎◌, inl, inr, true, false, none, some, List, [], ◌∷◌, ◌++◌, arith, str_eq,
  eq_iff, if◌then◌else◌, contains, In, contains→In, In-append_left, In-append_right, Bool-cases,
  Assoc, lookup, insert, remove, lookup-insert, lookup-remove,
}
use devagent.Model.RouteTable.{merge_devices, route_all, unroute_all}

pub lookup-unroute_all :
    (ds : List String) (m : Assoc String) (d : String)
    → lookup d (unroute_all ds m) ≡ (if contains ds d then none else lookup d m)
unfolding unroute_all contains
lookup-unroute_all [] m d = refl
lookup-unroute_all (x ∷ ds) m d =
    ground (arith, lookup-unroute_all ds (remove x m) d, lookup-remove x d m)

pub lookup-route_all :
    (g : String) (ds : List String) (m : Assoc String) (d : String)
    → lookup d (route_all g ds m) ≡ (if contains ds d then some g else lookup d m)
unfolding route_all contains
lookup-route_all g [] m d = refl
lookup-route_all g (x ∷ ds) m d =
    ground (arith, lookup-route_all g ds (insert x g m) d, lookup-insert x d g m)

-- One round of the loop, for a device that the gateway lists and for a new one.
module _ (g x : String) (ds listed : List String) (m : Assoc String) where
  merge_devices_listed :
      contains listed x ≡ true
      → merge_devices g (x ∷ ds) (listed, m) ≡ merge_devices g ds (listed, m)
  unfolding merge_devices
  merge_devices_listed old = ground arith

  merge_devices_new :
      contains listed x ≡ false
      → merge_devices g (x ∷ ds) (listed, m) ≡ merge_devices g ds (listed ++ x ∷ [], insert x g m)
  unfolding merge_devices
  merge_devices_new new = ground arith

pub In-merge_devices :
    (g : String) (ds listed : List String) (m : Assoc String) (d : String)
    → In d listed
    → In d (merge_devices g ds (listed, m)).0
In-merge_devices g [] listed m d h = unfold merge_devices in h
In-merge_devices g (x ∷ ds) listed m d h = elim (Bool-cases (contains listed x)) [
  | inl old ↦ rw (merge_devices_listed g x ds listed m old) (In-merge_devices g ds listed m d h)
  | inr new ↦ rw (merge_devices_new g x ds listed m new) (
      In-merge_devices g ds (listed ++ x ∷ []) (insert x g m) d
        (In-append_left d listed (x ∷ []) h))
]

-- The devices of a discovery end up in the gateway's list.
pub In-merge_devices_new :
    (g : String) (ds listed : List String) (m : Assoc String) (d : String)
    → In d ds
    → In d (merge_devices g ds (listed, m)).0
In-merge_devices_new g [] listed m d h = absurd h
In-merge_devices_new g (x ∷ ds) listed m d h = elim (Bool-cases (contains listed x)) [
  | inl old ↦ rw (merge_devices_listed g x ds listed m old) (elim h [
    | inl e ↦ In-merge_devices g ds listed m d (rw (← e) (contains→In listed x old))
    | inr r ↦ In-merge_devices_new g ds listed m d r
  ])
  | inr new ↦ rw (merge_devices_new g x ds listed m new) (elim h [
    | inl e ↦
        In-merge_devices g ds (listed ++ x ∷ []) (insert x g m) d
          (In-append_right d listed (x ∷ []) (inl e))
    | inr r ↦ In-merge_devices_new g ds (listed ++ x ∷ []) (insert x g m) d r
  ])
]

-- A route after the merge is an old one, or one to the gateway, which lists the device.
pub route-merge_devices :
    (g : String) (ds listed : List String) (m : Assoc String) (d h : String)
    → lookup d (merge_devices g ds (listed, m)).1 ≡ some h
    → (lookup d m ≡ some h) ⊎ ((g ≡ h) × In d (merge_devices g ds (listed, m)).0)
route-merge_devices g [] listed m d h e = unfold merge_devices in inl e
route-merge_devices g (x ∷ ds) listed m d h e = elim (Bool-cases (contains listed x)) [
  | inl old ↦
      let same = merge_devices_listed g x ds listed m old in
      rw same (route-merge_devices g ds listed m d h (rw same at e))
  | inr new ↦
      let same = merge_devices_new g x ds listed m new in
      rw same (go (route-merge_devices g ds (listed ++ x ∷ []) (insert x g m) d h (rw same at e)))
]
  where
    go :
        (lookup d (insert x g m) ≡ some h)
          ⊎ ((g ≡ h) × In d (merge_devices g ds (listed ++ x ∷ [], insert x g m)).0)
        → (lookup d m ≡ some h)
          ⊎ ((g ≡ h) × In d (merge_devices g ds (listed ++ x ∷ [], insert x g m)).0)
    go (inr k) = inr k
    go (inl k) = elim (Bool-cases (str_eq x d)) [
      | inl same ↦ inr (
        ground (arith, lookup-insert x d g m),
        In-merge_devices g ds (listed ++ x ∷ []) (insert x g m) d
            (In-append_right d listed (x ∷ []) (inl ((eq_iff x d).0 same))),
      )
      | inr other ↦ inl (ground (arith, lookup-insert x d g m))
    ]

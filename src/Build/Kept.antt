-- ===== src/Build/Kept.antt =====
-- What a cleanup keeps, and what it leaves.
use drone_db.Base.{
  ◌≡◌, refl, Bool, true, false, ◌||◌, not, Option, none, some, List, [], ◌∷◌, Text, same, bytes,
  keep, ◌++◌, ◌&&◌, ◌⊎◌, inl, inr, arith, All, All-map, if◌then◌else◌, Result,
}
use drone_db.Build.Output.{below}
use drone_db.Build.Cleanup.{
  Inside, Node, directory_node, regular_file, other_node, Item, is_hash_like, is_held, temp_prefix,
  is_lock_file_stale, is_orphan_temp, clean_node, put_item, clean_items,
}

spared_of :
    (o : Option Text) (active : Text → Bool) (s : Bool)
    → not (elim o [ none ↦ false | some x ↦ not (active x) && not s ])
      ≡ (elim o [ none ↦ true | some x ↦ active x || s ])
spared_of none active s = refl
spared_of (some x) active s = ground arith

keep_alike :
    (p q : Text → Bool) → ((f : Text) → p f ≡ q f) → (fs : List Text) → keep p fs ≡ keep q fs
unfolding keep
keep_alike p q h [] = refl
keep_alike p q h (f ∷ fs) = rw (h f, keep_alike p q h fs) refl

module _ (exists : Text → Bool) (probe : Text → Result (Unit {0})) (extension stem : Text → Text)
    (is_stuck : Text → Bool) (build_dir : Text) (is_valid : Text → Bool) where
  -- Not to be removed: no hash in the name, or the hash of an entry.
  abbrev pub is_protected : Text → Node → Bool
  is_protected name (directory_node inside) = not (is_hash_like name) || is_valid name
  is_protected name regular_file =
      not (same (extension name) (bytes ".pending"))
      || not (is_hash_like (stem name))
      || is_valid (stem name)
  is_protected name other_node = true

  -- A live lock holds it, or it cannot be scanned or removed.
  abbrev pub is_unremovable : Text → Node → Bool
  is_unremovable name (directory_node inside) =
      is_held exists probe extension stem is_stuck build_dir (below build_dir name) inside
      || is_stuck (below build_dir name)
  is_unremovable name regular_file = is_stuck (below build_dir name)
  is_unremovable name other_node = false

  -- Not a scratch folder, or one that a live lock holds, or that cannot be removed.
  abbrev pub is_spared : Text → Text → Bool
  is_spared hash_dir folder = elim (temp_prefix [] folder) [
    | none ↦ true
    | some output ↦
        let lock_path = below hash_dir (output ++ bytes ".building") in
        (exists lock_path && not (is_lock_file_stale exists probe lock_path))
        || is_stuck (below hash_dir folder)
  ]

  -- All that is in it is left; in the folder of a build, all but the scratch folders that are not spared.
  abbrev pub IsWhole : Text → Node → Node → Type 0
  IsWhole name (directory_node inside) (directory_node left) =
      (left.scan_fails ≡ inside.scan_fails)
      × (left.files ≡ inside.files)
      × (left.folders ≡ (
          if is_hash_like name
          then keep (is_spared (below build_dir name)) inside.folders
          else inside.folders))
  IsWhole name regular_file regular_file = Unit
  IsWhole name other_node other_node = Unit
  IsWhole name _ _ = ⊥

  -- The item is among those that are left, with what is in it.
  abbrev pub Stays : Text → Node → List Item → Type 0
  Stays name node [] = ⊥
  Stays name node (item ∷ items) =
      ((item.name ≡ name) × IsWhole name node item.node) ⊎ Stays name node items

  -- What is left of an item has its name.
  abbrev Stands : Text → Option Item × List Text → Type 0
  Stands name (none, gone) = Unit
  Stands name (some item, gone) =
      (item.name ≡ name) × (is_protected name item.node || is_unremovable name item.node ≡ true)

  abbrev StaysIn : Text → Node → Option Item × List Text → Type 0
  StaysIn name node (none, gone) = ⊥
  StaysIn name node (some item, gone) = (item.name ≡ name) × IsWhole name node item.node

  abbrev cleaned : Text → Node → Option Item × List Text
  cleaned name node = clean_node exists probe extension stem is_stuck build_dir is_valid name node

  directory-Stands :
      (name : Text) (inside inside' : Inside) (gone : List Text) (h v u : Bool)
      → is_hash_like name ≡ h
      → is_valid name ≡ v
      → is_unremovable name (directory_node inside) ≡ u
      → Stands name (
          if not h
          then (some (record { name = name; node = directory_node inside }), [])
          else if v
          then (some (record { name = name; node = directory_node inside' }), gone)
          else if u
          then (some (record { name = name; node = directory_node inside }), [])
          else (none, below build_dir name ∷ []))
  directory-Stands name inside inside' gone false v u h e w = (refl, ground (arith, h))
  directory-Stands name inside inside' gone true true u h e w = (refl, ground (arith, e))
  directory-Stands name inside inside' gone true false true h e w = (refl, ground (arith, w))
  directory-Stands name inside inside' gone true false false h e w = tt

  file-Stands :
      (name : Text) (b : Bool)
      → (is_protected name regular_file || is_stuck (below build_dir name)) ≡ b
      → Stands name (
          if b
          then (some (record { name = name; node = regular_file }), [])
          else (none, below build_dir name ∷ []))
  file-Stands name true e = (refl, e)
  file-Stands name false e = tt

  node-Stands : (name : Text) (node : Node) → Stands name (cleaned name node)
  node-Stands name (directory_node inside) = directory-Stands name inside _ _ _ _ _ refl refl refl
  node-Stands name regular_file = file-Stands name _ refl
  node-Stands name other_node = (refl, refl)

  not_orphan :
      (path f : Text)
      → not (is_orphan_temp exists probe extension stem is_stuck build_dir path f)
        ≡ is_spared path f
  not_orphan path f = spared_of (temp_prefix [] f) _ _

  directory-StaysIn :
      (name : Text) (inside : Inside) (gone path : List Text) (folders : List Text) (h v u : Bool)
      → is_hash_like name ≡ h
      → folders ≡ keep (is_spared (below build_dir name)) inside.folders
      → not h || v ≡ true
      → StaysIn name (directory_node inside) (
          if not h
          then (some (record { name = name; node = directory_node inside }), [])
          else if v
          then (
            some (record {
              name = name;
              node = directory_node (record inside { folders = folders });
            }),
            gone,
          )
          else if u
          then (some (record { name = name; node = directory_node inside }), [])
          else (none, path))
  directory-StaysIn name inside gone path folders false v u h e p = (refl, (refl, refl, rw h refl))
  directory-StaysIn name inside gone path folders true true u h e p = (refl, (refl, refl, rw h e))
  directory-StaysIn name inside gone path folders true false u h e p = cc

  protected-StaysIn :
      (name : Text) (node : Node)
      → is_protected name node ≡ true
      → StaysIn name node (cleaned name node)
  protected-StaysIn name (directory_node inside) p =
      directory-StaysIn name inside _ _ _ (is_hash_like name) (is_valid name) _ refl
        (keep_alike _ _ (not_orphan (below build_dir name)) inside.folders) p
  protected-StaysIn name regular_file p = rw p (refl, tt)
  protected-StaysIn name other_node p = (refl, tt)

  put-Stays :
      (name : Text) (node : Node) (out : Option Item × List Text) (rest : List Item × List Text)
      → StaysIn name node out
      → Stays name node (put_item exists probe extension stem is_stuck build_dir out rest).0
  put-Stays name node (none, gone) rest s = absurd s
  put-Stays name node (some item, gone) rest s = inl s

  put-keeps_Stays :
      (name : Text) (node : Node) (out : Option Item × List Text) (rest : List Item × List Text)
      → Stays name node rest.0
      → Stays name node (put_item exists probe extension stem is_stuck build_dir out rest).0
  put-keeps_Stays name node (none, gone) (items, removed) h = h
  put-keeps_Stays name node (some item, gone) (items, removed) h = inr h

  abbrev after : List Item → List Item × List Text
  after items = clean_items exists probe extension stem is_stuck build_dir is_valid items

  pub protected-Stays :
      (items : List Item)
      → All
          (λ (i : Item). is_protected i.name i.node ≡ true → Stays i.name i.node (after items).0)
          items
  unfolding clean_items
  protected-Stays [] = tt
  protected-Stays (item ∷ items) = (
    λ p.
        put-Stays item.name item.node (cleaned item.name item.node) (after items)
          (protected-StaysIn item.name item.node p),
    All-map _ _ items
        (λ i h p. put-keeps_Stays i.name i.node (cleaned item.name item.node) (after items) (h p))
        (protected-Stays items),
  )

  put-All :
      (name : Text) (out : Option Item × List Text) (rest : List Item × List Text)
      → Stands name out
      → All (λ (i : Item). is_protected i.name i.node || is_unremovable i.name i.node ≡ true) rest.0
      → All
          (λ (i : Item). is_protected i.name i.node || is_unremovable i.name i.node ≡ true)
          (put_item exists probe extension stem is_stuck build_dir out rest).0
  put-All name (none, gone) (items, removed) s a = a
  put-All name (some item, gone) (items, removed) s a = (rw s.0 s.1, a)

  pub left_for_a_reason :
      (items : List Item)
      → All
          (λ (i : Item). is_protected i.name i.node || is_unremovable i.name i.node ≡ true)
          (after items).0
  unfolding clean_items
  left_for_a_reason [] = tt
  left_for_a_reason (item ∷ items) =
      put-All item.name (cleaned item.name item.node) (after items)
        (node-Stands item.name item.node) (left_for_a_reason items)

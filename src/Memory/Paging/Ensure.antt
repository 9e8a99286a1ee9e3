-- ===== src/Memory/Paging/Ensure.antt =====
-- One step of `MapPage` down the tree: the table is there, or a fresh cleared one is linked in, and
-- no walk through the tree ends anywhere else than before.
use boreal_os.Base.{
  ℕ, ◌≤◌, ◌<◌, ◌≡◌, ◌≢◌, refl, ◌∙◌, ◌⊎◌, inl, inr, some, List, bit_and, Outcome, ok, panic,
  no_table_frame, arith, length,
}
use native.Mathlib.Decide.{ℕ_discrete}
use boreal_os.Memory.Pmm.{allocate_pages}
use boreal_os.Memory.Pmm.Alloc.{Granted, allocate_pages_lem}
use boreal_os.Memory.Paging.{Machine, entry_at, pointer_mask, ensure_table, next_table}
use boreal_os.Memory.Paging.Entries.{directory-pointer}
use boreal_os.Memory.Paging.Link.{
  linked, frame, role', frame-IsFrame, keeps, next_table-link, next_table-old, same_entry,
  next_table-empty, linked-IsTree, walk-linked,
}
use boreal_os.Memory.Paging.Tree.{Role, unused, child, height, IsTree, walk, AllSmall}

-- After a step: the table that entry `i` of `t` leads to, in a tree that extends the old one.
pub record Ensured (role : ℕ → Role) (pml4 : ℕ) (m : Machine) (t i : ℕ) (o : Outcome (Machine × ℕ))
    : Type 0 where
  pub after : Machine
  pub table : ℕ
  pub returns : o ≡ ok (after, table)
  pub roles : ℕ → Role
  pub tree : IsTree roles pml4 after
  pub keeps : (u : ℕ) → role u ≢ unused → roles u ≡ role u
  pub is_child : roles table ≡ child (role t) i
  pub step : next_table after t i ≡ some table
  pub steps :
      (u j w : ℕ)
      → role u ≢ unused
      → j < 512
      → next_table m u j ≡ some w
      → next_table after u j ≡ some w
  pub walks :
      (u : ℕ) (is : List ℕ)
      → AllSmall is
      → length is ≡ height (role u)
      → 0 < length is
      → walk after u is ≡ walk m u is

module _ {role : ℕ → Role} {pml4 : ℕ} {m : Machine} (tree : IsTree role pml4 m) (t i : ℕ)
    (small : i < 512) (deep : 2 ≤ height (role t)) where
  ensure_old : m.words (entry_at t i) ≢ 0 → Ensured role pml4 m t i (ensure_table m t i)
  ensure_old ne = elim (tree.down t i small deep) [
    | inl e ↦ absurd (ne e)
    | inr (p, r) ↦ record {
      after = m;
      table = bit_and (m.words (entry_at t i)) pointer_mask;
      returns = unfold ensure_table in ground arith;
      roles = role;
      tree = tree;
      keeps = λ u used. refl;
      is_child = r;
      step = unfold next_table in rw p;
      steps = λ u j w used h e. e;
      walks = λ u is hs e pos. refl;
    }
  ]

  ensure_new :
      m.words (entry_at t i) ≡ 0
      → (g : Granted m.pmm 1 (allocate_pages m.pmm 1))
      → Ensured role pml4 m t i (ensure_table m t i)
  ensure_new empty g = record {
    after = linked tree t i small deep g;
    table = frame tree t i small deep g;
    returns = returned;
    roles = role' tree t i small deep g;
    tree = linked-IsTree tree t i small deep g;
    keeps = keeps tree t i small deep g;
    is_child = ground arith;
    step = next_table-link tree t i small deep g;
    steps = λ u j w used h e. elim (same_entry tree t i small deep g u j) [
      | inl (eu, ej) ↦ cc (next_table-empty tree t i small deep g empty)
      | inr other ↦ next_table-old tree t i small deep g u j used h other ∙ e
    ];
    walks = walk-linked tree t i small deep g empty;
  }
    where
      returned : ensure_table m t i ≡ ok (linked tree t i small deep g, frame tree t i small deep g)
      returned =
          unfold ensure_table in
          ground (
            arith,
            empty,
            g.returns,
            g.above_low,
            directory-pointer (frame tree t i small deep g) (frame-IsFrame tree t i small deep g),
          )

  -- A step of `MapPage` leads to the table of its index in a tree that extends the old one and in
  -- which every walk ends where it did; it panics only if there is no free frame for a new table.
  pub ensure_table_lem :
      Ensured role pml4 m t i (ensure_table m t i) ⊎ (ensure_table m t i ≡ panic no_table_frame)
  ensure_table_lem = elim (ℕ_discrete (m.words (entry_at t i)) 0) [
    | no ne ↦ inl (ensure_old ne)
    | yes empty ↦ elim (allocate_pages_lem m.pmm 1 tree.valid (omega arith)) [
      | inl g ↦ inl (ensure_new empty g)
      | inr r ↦ inr (unfold ensure_table in ground (arith, r.returns))
    ]
  ]

-- ===== src/Memory/Paging/Descend.antt =====
-- The three levels above a page's entry: `descend` leads to the lowest table for an address.
use boreal_os.Base.{
  ℕ, ◌≤◌, ◌<◌, ◌≡◌, ◌≢◌, refl, sym, ◌∙◌, ap, ◌⊎◌, inl, inr, some, Outcome, ok, panic,
  no_table_frame, arith,
}
use boreal_os.Memory.Paging.{
  Machine, ensure_table, next_table, descend, pml4_index, pdp_index, pd_index,
}
use boreal_os.Memory.Paging.Entries.{indices}
use boreal_os.Memory.Paging.Tree.{
  Role, unused, root, pdp, pd, pt, child, height, IsTree, walk, path, AllSmall, used-of_height,
}
use boreal_os.Memory.Paging.Ensure.{Ensured, ensure_table_lem}

pub path-small : (v : ℕ) → AllSmall (path v)
path-small v = let i = indices v in (omega arith, (omega arith, (omega arith, (omega arith, tt))))

root_used : root ≢ unused
root_used = used-of_height root (omega arith)

-- The lowest table for an address, in a tree that extends the old one: the steps that lead to it,
-- and the walks, which end where they did.
pub record Descended (role : ℕ → Role) (pml4 v : ℕ) (m : Machine) (o : Outcome (Machine × ℕ))
    : Type 0 where
  pub after : Machine
  pub table : ℕ
  pub returns : o ≡ ok (after, table)
  pub roles : ℕ → Role
  pub tree : IsTree roles pml4 after
  pub lowest : roles table ≡ pt (pml4_index v) (pdp_index v) (pd_index v)
  pub a : ℕ
  pub b : ℕ
  pub role_a : roles a ≡ pdp (pml4_index v)
  pub role_b : roles b ≡ pd (pml4_index v) (pdp_index v)
  pub step_a : next_table after pml4 (pml4_index v) ≡ some a
  pub step_b : next_table after a (pdp_index v) ≡ some b
  pub step_c : next_table after b (pd_index v) ≡ some table
  pub walks : (w : ℕ) → walk after pml4 (path w) ≡ walk m pml4 (path w)

module _ {role : ℕ → Role} {pml4 : ℕ} {m : Machine} (tree : IsTree role pml4 m) (v : ℕ) where
  root-deep : 2 ≤ height (role pml4)
  root-deep = rw tree.top (omega arith)

  abbrev i4 : ℕ
  i4 = pml4_index v

  abbrev i3 : ℕ
  i3 = pdp_index v

  abbrev i2 : ℕ
  i2 = pd_index v

  i4_small : i4 < 512
  i4_small = (path-small v).0

  i3_small : i3 < 512
  i3_small = (path-small v).1.0

  i2_small : i2 < 512
  i2_small = (path-small v).1.1.0

  module _ (e : Ensured role pml4 m pml4 i4 (ensure_table m pml4 i4)) where
    role_pdp : e.roles e.table ≡ pdp i4
    role_pdp = e.is_child ∙ ap (λ r. child r i4) tree.top

    pdp-deep : 2 ≤ height (e.roles e.table)
    pdp-deep = rw role_pdp (omega arith)

    a_used : e.roles e.table ≢ unused
    a_used = used-of_height (e.roles e.table) (omega (arith, pdp-deep))

    root_used_e : e.roles pml4 ≢ unused
    root_used_e = rw e.tree.top root_used

    module _ (f : Ensured e.roles pml4 e.after e.table i3 (ensure_table e.after e.table i3)) where
      role_pd : f.roles f.table ≡ pd i4 i3
      role_pd = f.is_child ∙ ap (λ r. child r i3) role_pdp

      pd-deep : 2 ≤ height (f.roles f.table)
      pd-deep = rw role_pd (omega arith)

      a_used_f : f.roles e.table ≢ unused
      a_used_f = rw (f.keeps e.table a_used) a_used

      b_used : f.roles f.table ≢ unused
      b_used = used-of_height (f.roles f.table) (omega (arith, pd-deep))

      root_used_f : f.roles pml4 ≢ unused
      root_used_f = rw f.tree.top root_used

      descended :
          Ensured f.roles pml4 f.after f.table i2 (ensure_table f.after f.table i2)
          → Descended role pml4 v m (descend pml4 v m)
      descended g = record {
        after = g.after;
        table = g.table;
        returns = unfold descend in rw (e.returns, f.returns) g.returns;
        roles = g.roles;
        tree = g.tree;
        lowest = g.is_child ∙ ap (λ r. child r i2) role_pd;
        a = e.table;
        b = f.table;
        role_a = g.keeps e.table a_used_f ∙ f.keeps e.table a_used ∙ role_pdp;
        role_b = g.keeps f.table b_used ∙ role_pd;
        step_a =
            g.steps pml4 i4 e.table root_used_f i4_small
              (f.steps pml4 i4 e.table root_used_e i4_small e.step);
        step_b = g.steps e.table i3 f.table a_used_f i3_small f.step;
        step_c = g.step;
        walks = λ w.
            g.walks pml4 (path w) (path-small w) (sym (ap height f.tree.top)) (omega arith)
            ∙ f.walks pml4 (path w) (path-small w) (sym (ap height e.tree.top)) (omega arith)
            ∙ e.walks pml4 (path w) (path-small w) (sym (ap height tree.top)) (omega arith);
      }

  pub descend_lem :
      Descended role pml4 v m (descend pml4 v m) ⊎ (descend pml4 v m ≡ panic no_table_frame)
  descend_lem = elim (ensure_table_lem tree pml4 i4 i4_small root-deep) [
    | inr e ↦ inr (unfold descend in rw e refl)
    | inl e ↦ elim (ensure_table_lem e.tree e.table i3 i3_small (pdp-deep e)) [
      | inr f ↦ inr (unfold descend in rw (e.returns, f) refl)
      | inl f ↦ elim (ensure_table_lem f.tree f.table i2 i2_small (pd-deep e f)) [
        | inr g ↦ inr (unfold descend in rw (e.returns, f.returns, g) refl)
        | inl g ↦ inl (descended e f g)
      ]
    ]
  ]

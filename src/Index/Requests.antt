-- ===== src/Index/Requests.antt =====
-- What the searches of src/ix_indexhandle.cc rely on of the paged file, and the calls that the index
-- makes of it when nothing fails.
use redbase.Base.{
  ℕ, suc, ◌-◌, ◌≡◌, ◌≢◌, refl, ap, ◌∙◌, sym, fun_ext, Option, some, none, update, ℤ, pos, eqb_ℤ,
  eqb_ℤ_iff, arith, inl, inr, ◌⊎◌, Bool-cases,
}
use redbase.Btree.Insert.{get_num_keys_valid}
use redbase.Btree.Node.{Node}
use redbase.Index.Path.{release_any, enter, leaf_step, child_for, path_at}
use redbase.Index.Tree.{IsUsable}
use redbase.Index.{
  Pages, Index, is_valid, when_index_valid, on_pages, get_index_page, fetch_node, put_node,
  pin_page, un_pin, or_null, ignoring, deref,
}
use redbase.Paged.Outcome.{ok, err, ◌>>=◌, ◌>>◌}
use redbase.Btree.Key.{KeyOrder}

-- In a state that is `Good n` the paged file has every page `InUse` at hand, and can pin pages `n` more
-- times: a pin takes one of these, a request that unpins its page again leaves them, and so does the
-- release of a pin, which may be refused.
pub record Serves {S : Type 0} ⦃pf : Pages S⦄ (InUse : ℤ → Type 0) (Good : ℕ → S → Type 0)
    : Type 0 where
  pub request :
      (n : ℕ) (s : S) (p : ℤ)
      → Good (suc n) s
      → InUse p
      → (a : S) × (b : S) × (c : S) × (pf.get p s ≡ ok a tt)
        × (pf.mark p a ≡ ok b tt)
        × (pf.unpin p b ≡ ok c tt)
        × Good (suc n) c
  pub pinned :
      (n : ℕ) (s : S) (p : ℤ)
      → Good (suc n) s
      → InUse p
      → (t : S) × (pf.get p s ≡ ok t tt) × Good n t
  pub released :
      (n : ℕ) (s : S) (p : ℤ)
      → Good n s
      → (t : S) × ((pf.unpin p s ≡ ok t tt) ⊎ ((c : ℤ) × (pf.unpin p s ≡ err t c))) × Good n t

pub put_node-same : {K : Type 0} (p : ℤ) (nodes : ℤ → Node K) → put_node p (nodes p) nodes ≡ nodes
put_node-same p nodes = fun_ext (λ q. elim (Bool-cases (eqb_ℤ q p)) [
  | inl e ↦ rw (e) (ap nodes (sym ((eqb_ℤ_iff q p).0 e)))
  | inr e ↦ rw (e) refl
])

module _ {K S : Type 0} ⦃pf : Pages S⦄ {InUse : ℤ → Type 0} {Good : ℕ → S → Type 0}
    (serves : Serves InUse Good) where
  get_index_page_lem :
      (n : ℕ) (p : ℤ) (s : Index K S)
      → Good (suc n) s.pages
      → InUse p
      → (q : S) × (get_index_page p s ≡ ok (record s { pages = q }) tt) × Good (suc n) q
  unfolding get_index_page
  get_index_page_lem n p s good used =
      let (a, b, c, get, mark, unpin, good') = serves.request n s.pages p good used in
      (c, rw (get, mark, unpin, get_index_page, ◌>>◌, ◌>>=◌, on_pages) refl, good')

  -- On a page of the tree `FetchNode` answers with the node and changes none.
  pub fetch_node_lem :
      (n : ℕ) (p : ℤ) (s : Index K S)
      → is_valid s ≡ pos 0
      → Good (suc n) s.pages
      → IsUsable InUse s.nodes p
      → (q : S) × (fetch_node p s ≡ ok (record s { pages = q }) (some p)) × Good (suc n) q
  unfolding fetch_node
  fetch_node_lem n p s valid good usable =
      let (q, got, good') = get_index_page_lem n p s good usable.in_use in
      (
        q,
        rw
            (
              valid,
              usable.numbered,
              got,
              get_num_keys_valid (s.nodes p) usable.valid,
              put_node-same p s.nodes,
              fetch_node,
              when_index_valid,
              or_null,
              ◌>>◌,
              ◌>>=◌,
            )
            refl,
        good',
      )

  pin_page_lem :
      (n : ℕ) (p : ℤ) (s : Index K S)
      → Good (suc n) s.pages
      → InUse p
      → (q : S) × (pin_page p s ≡ ok (record s { pages = q }) tt) × Good n q
  unfolding pin_page
  pin_page_lem n p s good used =
      let (q, got, good') = serves.pinned n s.pages p good used in
      (q, rw (got, pin_page, on_pages) refl, good')

  release_any_by :
      (n : ℕ) (i : ℕ) (s : Index K S) (o : Option ℤ)
      → s.path i ≡ o
      → Good n s.pages
      → (q : S) × (path : ℕ → Option ℤ) × (release_any i s
          ≡ ok (record s { pages = q; path = path }) tt)
        × Good n q
        × ((j : ℕ) → j ≢ i → path j ≡ s.path j)
  unfolding release_any un_pin
  release_any_by n i s none e good = (
    s.pages,
    s.path,
    rw (e, release_any, un_pin, ignoring, ◌>>◌, ◌>>=◌, on_pages) refl,
    good,
    λ j h. refl,
  )
  release_any_by n i s (some p) e good =
      let (q, case, good') = serves.released n s.pages p good in
      elim case [
        | inl done ↦ (
          q,
          update s.path i none,
          rw (e, done, release_any, un_pin, ignoring, ◌>>◌, ◌>>=◌, on_pages) refl,
          good',
          λ j h. ground arith,
        )
        | inr (c, refused) ↦ (
          q,
          update s.path i none,
          rw (e, refused, release_any, un_pin, ignoring, ◌>>◌, ◌>>=◌, on_pages) refl,
          good',
          λ j h. ground arith,
        )
      ]

  release_any_lem :
      (n : ℕ) (i : ℕ) (s : Index K S)
      → Good n s.pages
      → (q : S) × (path : ℕ → Option ℤ) × (release_any i s
          ≡ ok (record s { pages = q; path = path }) tt)
        × Good n q
        × ((j : ℕ) → j ≢ i → path j ≡ s.path j)
  release_any_lem n i s = release_any_by n i s (s.path i) refl

  -- On a page of the tree the loop puts its node into the path and pins it.
  enter_lem :
      (n : ℕ) (i : ℕ) (page at : ℤ) (s : Index K S)
      → is_valid s ≡ pos 0
      → Good (suc n) s.pages
      → IsUsable InUse s.nodes page
      → (q : S) × (enter i page at s
          ≡ ok
              (record s {
                pages = q;
                path = update s.path i (some page);
                path_pos = update s.path_pos (i - 1) at;
              })
              tt)
        × Good n q
  unfolding enter
  enter_lem n i page at s valid good usable =
      let (q, fetched, good') = fetch_node_lem n page s valid good usable in
      let (q', got, good'') =
        pin_page_lem n page (record s { pages = q; path = update s.path i (some page) }) good'
          usable.in_use in
      (q', rw (fetched, got, enter, ◌>>◌, ◌>>=◌) refl, good'')

module _ {K S : Type 0} ⦃key : KeyOrder K⦄ ⦃pf : Pages S⦄ {InUse : ℤ → Type 0}
    {Good : ℕ → S → Type 0} (serves : Serves InUse Good) where
  leaf_step_at :
      (x : K) (i : ℕ) (p : ℤ) (s : Index K S)
      → s.path i ≡ some p
      → leaf_step x (suc i) s
        ≡ (release_any (suc i)
              >> enter (suc i) (child_for x (s.nodes p)).0 (child_for x (s.nodes p)).1)
            s
  unfolding leaf_step
  leaf_step_at x i p s here =
      let back : suc i - 1 ≡ i = omega arith in
      rw (back, here, leaf_step, path_at, deref, ◌>>◌, ◌>>=◌) refl

  -- One round of the loop of `FindLeaf`: level `i + 1` gets the child for the key.
  pub leaf_step_lem :
      (n : ℕ) (x : K) (i : ℕ) (p child at : ℤ) (s : Index K S)
      → is_valid s ≡ pos 0
      → Good (suc n) s.pages
      → s.path i ≡ some p
      → child_for x (s.nodes p) ≡ (child, at)
      → IsUsable InUse s.nodes child
      → (q : S) × (path : ℕ → Option ℤ) × (leaf_step x (suc i) s
          ≡ ok (record s { pages = q; path = path; path_pos = update s.path_pos i at }) tt)
        × Good n q
        × (path (suc i) ≡ some child)
        × ((j : ℕ) → j ≢ suc i → path j ≡ s.path j)
  unfolding leaf_step
  leaf_step_lem n x i p child at s valid good here chosen usable =
      let back : suc i - 1 ≡ i = omega arith in
      let (q, path, left, good', same) = release_any_lem serves (suc n) (suc i) s good in
      let (q', entered, good'') =
        enter_lem serves n (suc i) child at (record s { pages = q; path = path }) valid good'
          usable in
      (
        q',
        update path (suc i) (some child),
        leaf_step_at x i p s here
            ∙ ap (λ c. (release_any (suc i) >> enter (suc i) c.0 c.1) s) chosen
            ∙ rw (left, ◌>>◌, ◌>>=◌) (entered ∙ rw (back) refl),
        good'',
        ground arith,
        λ j h. ground (arith, same j h),
      )

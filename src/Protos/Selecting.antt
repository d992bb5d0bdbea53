-- ===== src/Protos/Selecting.antt =====
-- `get_protos` of pallets/protos/src/lib.rs selects just what is asked for, page by page.
use clamor.Protos.Types.{user, Proto, State, owner_eq}
use clamor.Protos.Query.{GetProtosParams, selected, by_categories, list_protos, order}
use clamor.Protos.Index.{IsIndexed, owner_entries}
use clamor.Protos.QueryLaws.{passes}
use clamor.Protos.Ordering.{filter-reverse, page_of, by_categories-page}
use clamor.Protos.Wanted.{
  Wanted, Enumerates, OwnedAs, by_anyone, by_account, passes-fits, passes-stored,
  is_available-Available, Available-is_available, categories-InCategories, InCategories-categories,
  all-Tagged, Tagged-all, count-selected, count-by_categories, count-failing,
}
use clamor.Base.{
  ℕ, ◌≤◌, ◌≡◌, sym, subst, ◌↔◌, ◌⊎◌, inl, inr, Bool, true, false, Option, none, some, List, arith,
  if◌then◌else◌, Bool-cases, Option-cases, ◌==◌, ==_iff, take, drop, contains, count,
  count-contains, contains-count, nat_eq, bytes_eq, pair_eq,
}
use clamor.Host.{AccountId, Hash256, Categories}

-- The pages of the listing, in either order, are those of one list, which holds just what is wanted,
-- once each.
pub record Selects (keys : List Categories) (s : State) (q : GetProtosParams) (whole : List Hash256)
    : Type 0 where
  pub pages :
      (desc : Bool) (from limit : ℕ)
      → list_protos keys s (page_of q desc from limit)
        ≡ some (take limit (drop from (order desc whole)))
  pub once : (k : Hash256) → count k whole ≤ 1
  pub exact : (k : Hash256) → (contains whole k ≡ true) ↔ Wanted s q k

-- the request in ascending order
abbrev asc : GetProtosParams → GetProtosParams
asc q = record q { desc = false }

passes-Wanted :
    (s : State) (q : GetProtosParams) (k : Hash256) (p : Proto)
    → s.protos k ≡ some p
    → passes s q k ≡ true
    → OwnedAs p.owner q.owner
    → Wanted s q k
passes-Wanted s q k p e h o =
    let same = passes-fits s q k p e in
    record {
      proto = p;
      stored = e;
      available = is_available-Available q.available p.include_cost (ground (arith, h, same));
      category = categories-InCategories p.category q.categories (ground (arith, h, same));
      tagged = all-Tagged s p q.tags (ground (arith, h, same));
      owned = o;
    }

Wanted-passes : (s : State) (q : GetProtosParams) (k : Hash256) → Wanted s q k → passes s q k ≡ true
Wanted-passes s q k w = ground (
  arith,
  passes-fits s q k w.proto w.stored,
  Available-is_available q.available w.proto.include_cost w.available,
  InCategories-categories w.proto.category q.categories w.category,
  Tagged-all s w.proto q.tags w.tagged,
)

-- how often a hash stands in the list by categories
count-flat :
    (keys : List Categories) (s : State) (q : GetProtosParams) (k : Hash256) (p : Proto)
    → IsIndexed s
    → Enumerates keys s.protos_by_category
    → s.protos k ≡ some p
    → passes s q k ≡ true
    → count k (by_categories s (asc q) keys) ≡ 1
count-flat keys s q k p v u e h =
    let here = count-by_categories s (asc q) k p keys v e h in
    ground (arith, here, u.once p.category, v.by_category k p.category, e)

flat-Selects :
    (keys : List Categories) (s : State) (q : GetProtosParams)
    → IsIndexed s
    → Enumerates keys s.protos_by_category
    → q.owner ≡ none
    → Selects keys s q (by_categories s (asc q) keys)
unfolding list_protos
flat-Selects keys s q v u o =
    let whole = by_categories s (asc q) keys in
    let failing : (k : Hash256) → passes s q k ≡ false → count k whole ≡ 0 =
      λ k. count-failing s (asc q) k keys in
    record {
      pages = λ desc from limit. ground (arith, o, by_categories-page s q desc from limit keys);
      once = λ k. elim (Bool-cases (passes s q k)) [
        | inr out ↦ omega (arith, failing k out)
        | inl fine ↦ elim (Option-cases (s.protos k)) [
          | inl n ↦ absurd (ground (arith, fine, passes-stored s q k n))
          | inr (p, e) ↦ omega (arith, count-flat keys s q k p v u e fine)
        ]
      ];
      exact = λ k. (
        λ h. elim (Bool-cases (passes s q k)) [
          | inr out ↦ absurd (omega (arith, failing k out, contains-count whole k h))
          | inl fine ↦ elim (Option-cases (s.protos k)) [
            | inl n ↦ absurd (ground (arith, fine, passes-stored s q k n))
            | inr (p, e) ↦
                passes-Wanted s q k p e fine (subst (OwnedAs p.owner) (sym o) (by_anyone p.owner))
          ]
        ],
        λ w.
            count-contains whole k
              (omega (arith, count-flat keys s q k w.proto v u w.stored (Wanted-passes s q k w))),
      );
    }

owner-entries : (p : Proto) (a : AccountId) → (p.owner == user a) ≡ true → OwnedAs p.owner (some a)
owner-entries p a e =
    subst (λ o. OwnedAs o (some a)) (sym ((==_iff p.owner (user a)).0 e)) (by_account a)

entries-OwnedAs :
    (p : Proto) (o : Option AccountId) (a : AccountId)
    → o ≡ some a
    → OwnedAs p.owner o
    → p.owner ≡ user a
entries-OwnedAs p o a e (by_anyone x) = absurd (ground (arith, e))
entries-OwnedAs p o a e (by_account b) = ground (arith, e)

owned-Selects :
    (keys : List Categories) (s : State) (q : GetProtosParams) (a : AccountId)
    (hashes : List Hash256)
    → IsIndexed s
    → q.owner ≡ some a
    → s.protos_by_owner (user a) ≡ some hashes
    → Selects keys s q (selected s (asc q) hashes)
unfolding list_protos selected
owned-Selects keys s q a hashes v o m =
    let whole = selected s (asc q) hashes in
    let counted : (k : Hash256)
        → count k whole ≡ (if passes s q k then owner_entries (s.protos k) (user a) else 0) =
      λ k. ground (arith, count-selected s (asc q) k hashes, v.by_owner k (user a), m) in
    record {
      pages = λ desc from limit. ground (arith, o, m, filter-reverse (passes s q) hashes);
      once = λ k. ground (arith, counted k);
      exact = λ k. (
        λ h. elim (Option-cases (s.protos k)) [
          | inl n ↦ absurd (ground (arith, counted k, n, contains-count whole k h))
          | inr (p, e) ↦
              let more = contains-count whole k h in
              passes-Wanted s q k p e (ground (arith, counted k, more)) (
                subst (OwnedAs p.owner) (sym o)
                  (owner-entries p a (ground (arith, counted k, more, e))))
        ],
        λ w. count-contains whole k (
            ground (
              arith,
              counted k,
              Wanted-passes s q k w,
              w.stored,
              entries-OwnedAs w.proto q.owner a o w.owned,
              ==_iff w.proto.owner (user a),
            )),
      );
    }

-- Where the lists by owner and by category hold what they should, and the categories are enumerated
-- once each: if an owner without a list is asked for, there is no listing; else there is one list
-- that holds each stored Proto-Fragment once that has the owner, a category, all tags and the
-- availability that are asked for, where they are, and nothing else, and a listing is what `limit`
-- takes, after `from`, of this list or, in descending order, of its reverse.
pub list_protos-Wanted :
    (keys : List Categories) (s : State) (q : GetProtosParams)
    → IsIndexed s
    → Enumerates keys s.protos_by_category
    → ((a : AccountId) × (q.owner ≡ some a)
        × (s.protos_by_owner (user a) ≡ none)
        × (list_protos keys s q ≡ none))
      ⊎ ((whole : List Hash256) × Selects keys s q whole)
unfolding list_protos
list_protos-Wanted keys s q v u = elim (Option-cases q.owner) [
  | inl o ↦ inr (by_categories s (asc q) keys, flat-Selects keys s q v u o)
  | inr (a, o) ↦ elim (Option-cases (s.protos_by_owner (user a))) [
    | inl m ↦ inl (a, o, m, ground (arith, o, m))
    | inr (hashes, m) ↦ inr (selected s (asc q) hashes, owned-Selects keys s q a hashes v o m)
  ]
]

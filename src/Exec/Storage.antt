-- ===== src/Exec/Storage.antt =====
-- frame's storage maps. A map that is not iterated is a function from its keys; a `StorageValue`
-- with `ValueQuery` is a field of the pallet's record.
use clamor.Base.{
  Bool, ◌&&◌, Option, none, some, List, [], ◌∷◌, ◌++◌, Eq, ◌==◌, is_some, get_or, nat_eq,
  if◌then◌else◌, bytes_eq, pair_eq,
}

abbrev pub StorageMap : Type 0 → Type 0 → Type 0
StorageMap K V = K → Option V

abbrev pub StorageDoubleMap : Type 0 → Type 0 → Type 0 → Type 0
StorageDoubleMap K L V = K → L → Option V

module _ {K V : Type 0} where
  abbrev pub contains_key : StorageMap K V → K → Bool
  contains_key m k = is_some (m k)

module _ {K V : Type 0} ⦃e : Eq K⦄ where
  abbrev pub put : StorageMap K V → K → Option V → StorageMap K V
  put m k v j = if k == j then v else m j

  abbrev pub insert : StorageMap K V → K → V → StorageMap K V
  insert m k v = put m k (some v)

  abbrev pub remove : StorageMap K V → K → StorageMap K V
  remove m k = put m k none

  -- `mutate(k, |v| if let Some(v) = v { … })`
  abbrev pub mutate : StorageMap K V → K → (V → V) → StorageMap K V
  mutate m k f j = if k == j then elim (m j) [ none ↦ none | some v ↦ some (f v) ] else m j

module _ {K A : Type 0} where
  -- a `Vec` in storage; a missing key reads as the empty list
  abbrev pub items : StorageMap K (List A) → K → List A
  items m k = get_or (m k) []

module _ {K A : Type 0} ⦃e : Eq K⦄ where
  -- `append` writes a list of one item where there was none
  abbrev pub append : StorageMap K (List A) → K → A → StorageMap K (List A)
  append m k a = put m k (some (items m k ++ a ∷ []))

module _ {K L V : Type 0} ⦃e : Eq K⦄ ⦃f : Eq L⦄ where
  abbrev pub put₂ : StorageDoubleMap K L V → K → L → Option V → StorageDoubleMap K L V
  put₂ m k l v i j = if k == i && l == j then v else m i j

  abbrev pub mutate₂ : StorageDoubleMap K L V → K → L → (V → V) → StorageDoubleMap K L V
  mutate₂ m k l f i j =
      if k == i && l == j then elim (m i j) [ none ↦ none | some v ↦ some (f v) ] else m i j

module _ {K L A : Type 0} where
  abbrev pub items₂ : StorageDoubleMap K L (List A) → K → L → List A
  items₂ m k l = get_or (m k l) []

module _ {K L A : Type 0} ⦃e : Eq K⦄ ⦃f : Eq L⦄ where
  abbrev pub append₂ : StorageDoubleMap K L (List A) → K → L → A → StorageDoubleMap K L (List A)
  append₂ m k l a = put₂ m k l (some (items₂ m k l ++ a ∷ []))

-- ===== src/Catalog/Ids.antt =====
-- The ids of the catalog.
use sctp_conformance.Base.{
  ◌≡◌, refl, arith, Bool, true, not, ◌&&◌, List, [], ◌∷◌, Bytes, bytes_eq, bytes_eq_iff, is_empty,
}
use sctp_conformance.Feature.{FeatureDefinition}
use sctp_conformance.Server.Creation.{NotId, CatalogOk}
use sctp_conformance.Catalog.{build_feature_catalog}

abbrev is_new : Bytes → List FeatureDefinition → Bool
is_new id [] = true
is_new id (d ∷ rest) = not (bytes_eq d.id id) && is_new id rest

abbrev ids_differ : List FeatureDefinition → Bool
ids_differ [] = true
ids_differ (d ∷ rest) = not (is_empty d.id) && (is_new d.id rest && ids_differ rest)

is_new_sound :
    (id : Bytes) (catalog : List FeatureDefinition) → is_new id catalog ≡ true → NotId id catalog
is_new_sound id [] h = tt
is_new_sound id (d ∷ rest) h =
    (ground (arith, bytes_eq_iff d.id id), is_new_sound id rest (ground arith))

ids_differ_sound :
    (catalog : List FeatureDefinition) → ids_differ catalog ≡ true → CatalogOk catalog
ids_differ_sound [] h = tt
ids_differ_sound (d ∷ rest) h =
    (ground arith, is_new_sound d.id rest (ground arith), ids_differ_sound rest (ground arith))

-- Every feature of the catalog has an id, and no two have the same: the hypothesis of the theorems
-- on a server holds for the catalog that the program serves.
pub build_feature_catalog-CatalogOk : CatalogOk build_feature_catalog
build_feature_catalog-CatalogOk =
    ids_differ_sound build_feature_catalog (unfold build_feature_catalog in unfold bytes_eq in refl)

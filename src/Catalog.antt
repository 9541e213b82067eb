-- ===== src/Catalog.antt =====
-- `build_feature_catalog` of server/freebsd_ref/main.cpp.
pub mod Makers
pub mod References
pub mod Endpoints
pub mod Events
pub mod Multihoming
pub mod Associations
pub mod Extensions
pub mod Ids
pub mod Runnable
use sctp_conformance.Base.{List, [], ◌∷◌, ◌++◌, map}
use sctp_conformance.Feature.{FeatureDefinition}
use sctp_conformance.Catalog.References.{rfc_references_for_feature}
use sctp_conformance.Catalog.Endpoints.{endpoints}
use sctp_conformance.Catalog.Events.{events}
use sctp_conformance.Catalog.Multihoming.{multihoming}
use sctp_conformance.Catalog.Associations.{associations}
use sctp_conformance.Catalog.Extensions.{extensions}

-- The last loop: the references of a feature.
abbrev pub with_references : FeatureDefinition → FeatureDefinition
with_references d = record d { rfc_references = rfc_references_for_feature (d.id) }

unfoldable pub build_feature_catalog : List FeatureDefinition
build_feature_catalog =
    map with_references (endpoints ++ (events ++ (multihoming ++ (associations ++ extensions))))

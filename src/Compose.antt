-- ===== src/Compose.antt =====
-- pkg/compose/compose.go: the compose file, the start order of its services, the services that a
-- command names, and the host ports. YAML parsing, and the file that `Load` reads, stay outside.
pub mod StartOrder
pub mod Ports
pub mod Names
pub mod Engine
pub mod Commands
pub mod Traced
pub mod Up
pub mod UpTests
pub mod Tests
use thrive.Prelude.{
  ℕ, Bool, Option, none, some, List, [], ◌∷◌, ◌++◌, Text, Dict, lookup, keys, if◌then◌else◌,
  is_empty,
}

-- `BuildDef`, with the context that `UnmarshalYAML` fills in from either form.
pub record BuildDef : Type 0 where
  pub context : Text
  pub dockerfile : Text
  pub args : Dict Text

pub record ServiceDef : Type 0 where
  pub image : Text
  pub build : Option BuildDef
  pub command : List Text
  pub environment : Dict Text
  pub ports : List Text
  pub volumes : List Text
  pub networks : List Text
  pub depends_on : List Text
  pub restart : Text

-- The drivers of the declared networks and volumes.
pub record ComposeFile : Type 0 where
  pub version : Text
  pub services : Dict ServiceDef
  pub networks : Dict Text
  pub volumes : Dict Text

-- The services among the targets, in the order of the targets.
unfoldable pub named_services : ComposeFile → List Text → List Text
named_services cf [] = []
named_services cf (t ∷ targets) =
    let rest = named_services cf targets in
    elim (lookup t cf.services) [ none ↦ rest | some svc ↦ t ∷ rest ]

-- Target names, or all services when there is no target.
unfoldable pub filter_services : ComposeFile → List Text → List Text
unfolding named_services keys
filter_services cf targets =
    if is_empty targets then keys cf.services else named_services cf targets

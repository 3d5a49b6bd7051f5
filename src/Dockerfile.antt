-- ===== src/Dockerfile.antt =====
-- pkg/dockerfile/dockerfile.go and the graph of pkg/thrivefile/thrivefile.go: Dockerfiles are parsed
-- into build graphs. `Scan` has the text helpers, `Substitute` the variables, `Quote` the shell
-- quoting, `Parse` the instructions, and `Graph` the linking of the final stage.
-- The text is ASCII, as the instructions are: `strings.TrimSpace` and `strings.Fields` are taken at
-- the ASCII spaces. Reading files stays outside.
pub mod Scan
pub mod Lines
pub mod Substitute
pub mod Quote
pub mod Parse
pub mod Graph
pub mod Chain
pub mod Buildable
pub mod Instructions
pub mod Known
pub mod Tests

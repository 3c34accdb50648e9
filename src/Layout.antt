-- ===== src/Layout.antt =====
-- internal/core/model.go and stash.go: the tree of a Window's panes, and the functions on it.
-- A node is a pane leaf or an N-way split. A function that changes a tree through a pointer returns
-- the new tree; its `false` is `none`. A pane leaf carries no split fields, so the checks of
-- `validateLayout` that those are unset, and that the kind is known, hold by the type.
pub mod Tree
pub mod Weights
pub mod Edit
pub mod Hint
pub mod Validate

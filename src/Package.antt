-- ===== src/Package.antt =====
-- vynkor/__init__.py: the namespace of the package, from what its imports come to. `Import` holds
-- the module's statements, `Names` its lists of names; `Binding` is about assignments in a
-- namespace, `Guarded` about the guarded block and its handler, and `Final` and `Whole` about
-- the names that the package exports.
pub mod Names
pub mod Import
pub mod Binding
pub mod Guarded
pub mod Final
pub mod Whole
mod Tests

-- ===== src/Operator.antt =====
-- The operator manager (pkg/operatormanager/operatormanager.go), which installs the operator of the
-- databases of a namespace and takes it away again. The documents that it installs and their
-- decoding are the record `Documents`; an error that is wrapped stands for the error in it.
pub mod Objects
pub mod Install
pub mod Uninstall

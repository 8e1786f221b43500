-- ===== src/Tests.antt =====
-- Runs of the modelled code at concrete inputs, and the theorems at inputs that meet their
-- hypotheses.
mod Path
mod Codec
mod Server
mod Attr
mod Vfs
mod Namespace
mod MetaCache
mod Task
mod Rc

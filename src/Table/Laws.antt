-- ===== src/Table/Laws.antt =====
-- Laws of the statements, passed on.
pub mod Lookup
pub mod Keys
pub mod Rows
pub mod Any
pub use fleetd.Table.Laws.Lookup.{
  changed, find-update, All-update, update-count_zero, find-holds, All-find, All-select,
  select-holds, find-append, find-append_some, find-none,
}
pub use fleetd.Table.Laws.Keys.{
  Distinct, Distinct-update, Distinct-append, Distinct-concat, Distinct-select, count-find,
}
pub use fleetd.Table.Laws.Rows.{
  All-insert_by, All-order_by, All-take, All-both, All-every, Distinct-equal, Distinct-find,
}
pub use fleetd.Table.Laws.Any.{
  any-select, any-order_by, any_self, any_mono, any-elim, find-some, count-zero_All, update-never,
  any-none, All-swap, find-same, any-update, any-update_within, any-update_hit, any-append,
  any-count, update-same,
}

-- ===== src/EngineCore/Params/Access/Tests.antt =====
-- The theorem on the writes of cells at a concrete input, over numbers with three decimals.
use rust_ems.Base.{◌≡◌, refl, ◌&&◌, none, some, set, if◌then◌else◌}
use rust_ems.F32.{fixed_point}
use rust_ems.Heapless.{list_vec}
use rust_ems.EngineCore.Config.{default_4cyl}
use rust_ems.EngineCore.Params.Table.{ve}
use rust_ems.EngineCore.Params.Access.{
  bad_index, out_of_range, contains, table_get, table_write_cell,
}
use rust_ems.EngineCore.Params.Access.Laws.{meta_of, is_inside, place, table_get-table_write_cell}

table_get-table_write_cell_example :
    ((table_write_cell fixed_point (default_4cyl fixed_point list_vec) ve 3 2 900).1 ≡ (
      if contains fixed_point
        (meta_of fixed_point ve).cell_min
        (meta_of fixed_point ve).cell_max
        900
      then if is_inside (meta_of fixed_point ve) 3 2 then none else some bad_index
      else some out_of_range))
    × (table_get list_vec
          (table_write_cell fixed_point (default_4cyl fixed_point list_vec) ve 3 2 900).0
          ve
        ≡ record (table_get list_vec (default_4cyl fixed_point list_vec) ve) {
          cells =
              if contains fixed_point
                  (meta_of fixed_point ve).cell_min
                  (meta_of fixed_point ve).cell_max
                  900
                && is_inside (meta_of fixed_point ve) 3 2
              then set
                  (table_get list_vec (default_4cyl fixed_point list_vec) ve).cells
                  (place (meta_of fixed_point ve) 3 2)
                  900
              else (table_get list_vec (default_4cyl fixed_point list_vec) ve).cells;
        })
unfolding default_4cyl
table_get-table_write_cell_example =
    table_get-table_write_cell fixed_point list_vec (default_4cyl fixed_point list_vec) ve 3 2 900 (
      refl,
      (
        refl,
        (
          refl,
          (
            refl,
            (
              refl,
              (
                refl,
                (
                  refl,
                  (refl, (refl, (refl, (refl, (refl, (refl, (refl, (refl, (refl, (refl, _)))))))))),
                ),
              ),
            ),
          ),
        ),
      ),
    )

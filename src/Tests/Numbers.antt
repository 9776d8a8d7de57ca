-- ===== src/Tests/Numbers.antt =====
-- The theorems on sizes and on large numbers.
use runtopo.Prelude.{ℕ, ◌*◌, ◌^◌, ◌≡◌, refl, codes, ◌∷◌, [], arith, Outcome, panic, str_eq}
use runtopo.Prelude.Int.{pos, negsuc, ℤ}
use runtopo.Prelude.Dict.{lookup, attr as map_attr}
use runtopo.Errors.{Error}
use runtopo.Strconv.{is_digit}
use runtopo.Topology.Device.{Device, attr, memory, disk_size}
use runtopo.Topology.Device.Sizes.{Spells, memory-mib, memory-negative, disk_size-gib}
use runtopo.Libvirt.NatCompare.{nat_compare}
use runtopo.Libvirt.NatCompare.Panic.{nat_compare_panics}
use runtopo.Tests.Graphs.{device}

abbrev small : Device ℕ
small = device (codes "db") ((codes "memory", codes "2048") ∷ (codes "disk", codes "20") ∷ [])

abbrev huge : Device ℕ
huge = device (codes "db") ((codes "memory", codes "8796093022208") ∷ [])

small-Spells : Spells 2048 (attr small (codes "memory"))
unfolding attr map_attr lookup str_eq is_digit
small-Spells = record {
  first = b'2';
  rest = codes "048";
  text = refl;
  digits = (refl, (refl, (refl, (refl, tt))));
  no_zero = refl;
  value = refl;
}

disk-Spells : Spells 20 (attr small (codes "disk"))
unfolding attr map_attr lookup str_eq is_digit
disk-Spells = record {
  first = b'2';
  rest = codes "0";
  text = refl;
  digits = (refl, (refl, tt));
  no_zero = refl;
  value = refl;
}

huge-Spells : Spells (2 ^ 43) (attr huge (codes "memory"))
unfolding attr map_attr lookup str_eq is_digit
huge-Spells = record {
  first = b'8';
  rest = codes "796093022208";
  text = refl;
  digits = (
    refl,
    (
      refl,
      (refl, (refl, (refl, (refl, (refl, (refl, (refl, (refl, (refl, (refl, (refl, tt))))))))))),
    ),
  );
  no_zero = refl;
  value = refl;
}

memory_read : memory small ≡ pos (2048 * 2 ^ 20)
memory_read = memory-mib small 2048 small-Spells (omega arith)

memory-negative_example : (m : ℕ) × (memory huge ≡ negsuc m)
memory-negative_example = memory-negative huge (2 ^ 43) huge-Spells (omega arith) (omega arith)

disk_read : disk_size small ≡ pos (20 * 2 ^ 30)
disk_read = disk_size-gib small 20 disk-Spells (omega arith)

nat_compare_panics_example :
    ◌≡◌ {A = Outcome Error ℤ} (nat_compare (codes "9223372036854775808") (codes "1")) panic
unfolding is_digit
nat_compare_panics_example =
    nat_compare_panics b'9' b'1' (codes "223372036854775808") []
      (
        refl,
        (
          refl,
          (
            refl,
            (
              refl,
              (
                refl,
                (
                  refl,
                  (
                    refl,
                    (
                      refl,
                      (
                        refl,
                        (
                          refl,
                          (
                            refl,
                            (refl, (refl, (refl, (refl, (refl, (refl, (refl, (refl, tt)))))))),
                          ),
                        ),
                      ),
                    ),
                  ),
                ),
              ),
            ),
          ),
        ),
      )
      (omega arith) refl

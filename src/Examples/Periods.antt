-- ===== src/Examples/Periods.antt =====
-- Version periods, partition values and checksums.
use metrka_core.Prelude.{◌≡◌, ◌↔◌, refl, true, none, some, arith}
use metrka_core.Prelude.Text.{is_blank}
use metrka_core.Prelude.Result.{ok}
use metrka_core.Silver.VersionPeriod.{
  VersionPeriod, VersionPeriodSpec, year_grain, month_grain, max_column, Readings, check_period,
  discover, format_partition_value,
}
use metrka_core.Silver.VersionPeriod.Discovery.{same_period, IsPeriodOf, discover_lem}
use metrka_core.Silver.VersionPeriod.Partition.{IsDate, partition_value_determines}
use metrka_core.Storage.Checksums.{
  parse_sha256_checksum, format_sha256_checksum, with_prefix, checksum_round_trip,
}
use metrka_core.Examples.{hash_a, june, july}

abbrev june_period : VersionPeriod
june_period = record { value = june; grain = month_grain; source = "column:month" }

june-IsDate : IsDate june
june-IsDate = record {
  year_fits = (omega arith, omega arith);
  month_fits = omega arith;
  day_fits = omega arith;
}

partition_value_determines_example : (month_grain ≡ month_grain) × (june ≡ june)
unfolding check_period is_blank format_partition_value
partition_value_determines_example =
    partition_value_determines june_period (record june_period { source = "source_last_modified" })
      refl refl june-IsDate june-IsDate refl

abbrev spec : VersionPeriodSpec
spec = record {
  strategy = max_column;
  grain = year_grain;
  column = some "reported";
  date_format = none;
}

abbrev readings : Readings
readings = record { max_date = λ column. ok (some july); date_of = λ t. june }

abbrev earlier : Readings
earlier = record { max_date = λ column. ok (some june); date_of = λ t. june }

july-IsDate : IsDate july
july-IsDate = record {
  year_fits = (omega arith, omega arith);
  month_fits = omega arith;
  day_fits = omega arith;
}

-- A June and a July date of one year share the period of a yearly dataset.
discover_lem_example :
    (p q : VersionPeriod) × (discover readings spec none ≡ ok p)
    × (discover earlier spec none ≡ ok q)
    × IsPeriodOf spec.grain july p
    × IsPeriodOf spec.grain june q
    × ((format_partition_value p ≡ format_partition_value q)
        ↔ (same_period spec.grain july june ≡ true))
discover_lem_example =
    discover_lem readings earlier spec none none july june refl refl july-IsDate june-IsDate

checksum_round_trip_example :
    (parse_sha256_checksum (with_prefix hash_a) ≡ ok hash_a)
    ↔ (format_sha256_checksum hash_a ≡ ok (with_prefix hash_a))
checksum_round_trip_example = checksum_round_trip (with_prefix hash_a) hash_a

-- ===== src/GreenThanks/Config.antt =====
-- class GreenThanksConfigService (src/modules/green-thanks/green-thanks-config.service.ts).
use igreen_backend.Base.{ℕ, ◌+◌, Bool, true, Option, none, some, ◌==◌, get_or}
use igreen_backend.Base.Calendar.{Clock}
use igreen_backend.Store.Table.{find_first, update_where, create}
use igreen_backend.Store.Payroll.{GreenThanksConfig}
use igreen_backend.Store.Db.{Action, pure}
use igreen_backend.GreenThanks.{default_inr_per_point, default_quarterly_limit_points, is_config_of}

-- GreenThanksConfigService.get
pub get_config : Clock → ℕ → Action GreenThanksConfig
get_config clock organization_id db =
    elim (find_first (is_config_of organization_id) db.green_thanks_configs) [
      | some c ↦ pure c db
      | none ↦
          let made : GreenThanksConfig = record {
            id = db.next_id;
            organization_id = organization_id;
            inr_per_point = default_inr_per_point;
            quarterly_limit_points = default_quarterly_limit_points;
            is_payroll_linked = true;
            effective_from = clock.now;
          } in
          pure made (record db {
            next_id = db.next_id + 1;
            green_thanks_configs = create made db.green_thanks_configs;
          })
    ]

pub record UpdateGreenThanksConfigDto : Type 0 where
  pub inr_per_point : Option ℕ
  pub quarterly_limit_points : Option ℕ
  pub is_payroll_linked : Option Bool
  pub effective_from : Option ℕ

-- the data of the update in `update`
abbrev pub configured : UpdateGreenThanksConfigDto → GreenThanksConfig → GreenThanksConfig
configured dto c = record c {
  inr_per_point = get_or dto.inr_per_point c.inr_per_point;
  quarterly_limit_points = get_or dto.quarterly_limit_points c.quarterly_limit_points;
  is_payroll_linked = get_or dto.is_payroll_linked c.is_payroll_linked;
  effective_from = get_or dto.effective_from c.effective_from;
}

-- GreenThanksConfigService.update
pub update_config : Clock → ℕ → UpdateGreenThanksConfigDto → Action GreenThanksConfig
update_config clock organization_id dto db =
    elim (find_first (is_config_of organization_id) db.green_thanks_configs) [
      | some c ↦ pure (configured dto c) (record db {
        green_thanks_configs =
            update_where (λ x. x.id == c.id) (configured dto) db.green_thanks_configs;
      })
      | none ↦
          let made : GreenThanksConfig = record {
            id = db.next_id;
            organization_id = organization_id;
            inr_per_point = get_or dto.inr_per_point default_inr_per_point;
            quarterly_limit_points =
                get_or dto.quarterly_limit_points default_quarterly_limit_points;
            is_payroll_linked = get_or dto.is_payroll_linked true;
            effective_from = get_or dto.effective_from clock.now;
          } in
          pure made (record db {
            next_id = db.next_id + 1;
            green_thanks_configs = create made db.green_thanks_configs;
          })
    ]

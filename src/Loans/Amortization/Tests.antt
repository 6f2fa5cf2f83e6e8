-- ===== src/Loans/Amortization/Tests.antt =====
-- Schedules of concrete loans, as in loan-amortization.spec.ts, and of amounts that are no whole
-- hundredths. `Math.pow` is repeated multiplication here.
use igreen_backend.Base.{
  ℕ, zero, suc, ◌≡◌, refl, [], ◌∷◌, ◌++◌, map, length, replicate, arith, List,
}
use igreen_backend.Base.Int.{ℤ, pos, negsuc, scale, floor_div, ◌+ℤ◌, ◌-ℤ◌}
use igreen_backend.Base.Number.{number, mul, div, nearest}
use igreen_backend.Loans.Amortization.{
  Power, EmiInstallment, ComputeEmiScheduleInput, compute_emi_schedule, round_money, money,
}
use igreen_backend.Loans.Amortization.Rows.{IsLevel, Amortizes, compute_emi_schedule-Amortizes}
use igreen_backend.Loans.Amortization.Months.{Monthly, month_index, compute_emi_schedule-Monthly}

power : Power
power b zero = number (pos 1)
power b (suc n) = mul b (power b n)

-- 100000.00 at 12 % over 3 months from November 2025
abbrev three_months : ComputeEmiScheduleInput
three_months = record {
  principal = number (pos 100000);
  annual_interest_rate = number (pos 12);
  tenure_months = 3;
  start_month = 11;
  start_year = 2025;
}

abbrev balances : List EmiInstallment → List ℤ
balances = map (λ row. row.outstanding_balance)

three_months_balances :
    balances (compute_emi_schedule power three_months) ≡ pos 6699779 ∷ pos 3366556 ∷ pos 0 ∷ []
unfolding compute_emi_schedule power nearest scale floor_div ◌+ℤ◌ ◌-ℤ◌
three_months_balances = refl

compute_emi_schedule-Monthly_example :
    (length (compute_emi_schedule power three_months) ≡ 3)
    × Monthly 1 (month_index 2025 11) (compute_emi_schedule power three_months)
compute_emi_schedule-Monthly_example =
    compute_emi_schedule-Monthly power three_months (omega arith) (omega arith)

compute_emi_schedule-Amortizes_example :
    let rate = div (div (number (pos 12)) (number (pos 12))) (number (pos 100)) in
    (emi : ℤ) × IsLevel power (number (pos 100000)) rate 3 emi
    × Amortizes rate emi (number (pos 100000)) (compute_emi_schedule power three_months)
compute_emi_schedule-Amortizes_example =
    compute_emi_schedule-Amortizes power three_months (omega arith)

-- a loan without interest, of a number of thousandths
abbrev interest_free : ℕ → ℕ → ComputeEmiScheduleInput
interest_free thousandths tenure_months = record {
  principal = div (number (pos thousandths)) (number (pos 1000));
  annual_interest_rate = pos 0;
  tenure_months = tenure_months;
  start_month = 1;
  start_year = 2026;
}

-- 100.005 over two months repays 100.01: 50.00, and then the balance, which was rounded to 50.01.
half_a_hundredth :
    map
      (λ (row : EmiInstallment). row.principal)
      (compute_emi_schedule power (interest_free 100005 2))
    ≡ money (pos 5000) ∷ money (pos 5001) ∷ []
unfolding compute_emi_schedule round_money money nearest scale floor_div ◌+ℤ◌ ◌-ℤ◌
half_a_hundredth = refl

-- 1.005 is rounded to 1.00, since the double nearest to it lies below.
below_the_half : round_money (div (number (pos 1005)) (number (pos 1000))) ≡ pos 100
unfolding round_money nearest scale floor_div ◌+ℤ◌
below_the_half = refl

-- 1.00 over 120 months: the instalment rounds up to 0.01, and the last row repays -0.19.
tiny_loan :
    map
      (λ (row : EmiInstallment). row.emi_amount)
      (compute_emi_schedule power (interest_free 1000 120))
    ≡ replicate 119 (pos 1) ++ negsuc 18 ∷ []
unfolding compute_emi_schedule nearest scale floor_div ◌+ℤ◌ ◌-ℤ◌
tiny_loan = refl

-- ===== src/Lib.antt =====
-- The back end of iGreen, a system for the staff of organizations (employees, leave, loans, assets,
-- exits, requests to the office, payroll), which is a NestJS application over a PostgreSQL database
-- that it reaches through Prisma.
--
-- The parts and their files (paths from the root of the repository)
--   Base, and the files below it: numbers, tests, lists, amounts that may go below zero, dates, and
--     the pages of a listing (src/common/dto/pagination.dto.ts).
--   Store: the tables of prisma/schema.prisma with the columns that the services below use
--     (Store/Staff, Loan, Leave, Asset, Exit, Request, Payroll, Access), the Prisma calls on one table
--     (Store/Table), and the whole database with handlers over it (Store/Db). A handler is a
--     function from a database to a result and a database; what it has written stays when it
--     throws, except in a transaction.
--   Loans: the amortization schedule (src/modules/loans/loan-amortization.ts) in Loans/Amortization,
--     over the doubles of JavaScript (Base/Number), and LoansService (loans.service.ts) in Loans/Service, with the calls that payroll makes in
--     Loans/Service/Deduction.
--   Leave: LeaveBalanceService (src/modules/leave/leave-balance.service.ts) in Leave/Balance, and
--     LeaveApplicationsService (leave-applications.service.ts) in Leave/Applications.
--   Assets: AssetsService (src/modules/assets/assets.service.ts).
--   Employees: patchStatus of EmployeesService (src/modules/employees/employees.service.ts).
--   Exit: ExitService (src/modules/exit/exit.service.ts). It calls the outstanding balance of
--     Loans, the count of unreturned assets of Assets, and patchStatus of Employees.
--   ServiceRequests: ServiceRequestsService
--     (src/modules/service-requests/service-requests.service.ts). A grant of special leave calls
--     Leave/Balance and writes to the table of leave applications.
--   Incentives and GreenThanks: IncentiveLedgerService (src/modules/incentives/
--     incentive-ledger.service.ts), GreenThanksService and GreenThanksConfigService
--     (src/modules/green-thanks), each with what payroll pays of it and marks as paid.
--   Payroll: payroll-calculation.ts in Payroll/Calculation and PayrollService (payroll.service.ts)
--     in Payroll, with the entry of one employee in Payroll/Entry. A run calls
--     Loans/Service/Deduction, Incentives and GreenThanks for what is due, writes it into the entry
--     of each employee and marks it.
--   Departments: the calls of DepartmentsService (src/modules/organizations/departments/
--     departments.service.ts) that place a department below another.
--   Rbac: refreshRbacPolicies (src/common/rbac/rbac-refresh.ts), which brings the system roles of
--     all organizations up to SYSTEM_ROLES.
-- A method has its name in snake case. `create` and `return` have their object behind it
-- (create_asset, return_asset, create_exit, create_request, create_department).
--
-- How the code is read
--   Identifiers are UUIDs that the code compares; they are numbers, and `next_id` is the next
--   one that the database gives. Instants are milliseconds. The principal and the rate of a
--   loan are any doubles. What roundMoney gives is held as the number of hundredths whose
--   nearest double it is, also in the columns of the instalments, and the totals of
--   instalments add hundredths. Days of leave are counted in 24ths, so that half days and
--   monthly twelfths are whole. Payroll computes with doubles where the model is exact: a net
--   salary and a loss of pay are in grains, parts of a hundredth so small that a salary
--   divides by the days of any month and by 24ths of a day. Rows stand in the order of their
--   creation. The clock of a call, the time zone's calendar with the first and last instants
--   of its months, SYSTEM_ROLES, `Math.pow` and `toLowerCase` are parameters. A response is
--   the row that it is made from. Texts that a message interpolates are left out of it.
--   Validation of the body of a request has happened before.
--   Loops are recursion on a list or on a number of months; the two loops along the hierarchy of
--   departments run on fuel and give none when it is used up, and a theorem says how much is enough.
--   A handler runs without another in between, except where a theorem interleaves two.
--
-- What is not modelled
--   Attendance, authentication, the rules of incentives and the other modules of src/modules
--   that have no file here; sending of mails, queues, chat and storage of files; HTTP, guards
--   and interceptors; Infinity and NaN, which a rate of interest too small to change 1 gives;
--   the connection to the database and its isolation levels.
pub mod Base
pub mod Store
pub mod Loans
pub mod Leave
pub mod Assets
pub mod Employees
pub mod Exit
pub mod ServiceRequests
pub mod Incentives
pub mod GreenThanks
pub mod Payroll
pub mod Departments
pub mod Rbac

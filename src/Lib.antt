-- ===== src/Lib.antt =====
-- QA Lab: a hosted scanner of websites. Users register organizations, projects and websites,
-- prove that they own a domain, and start scans by hand or through an API key; a worker takes the
-- jobs from a queue, runs the scanner and stores the report. This library models the backend's
-- services (qa-lab-backend/src) and the scanner (src), and proves what they promise.
--
-- The state. The services keep their state in PostgreSQL, through the Prisma client, in Redis and
-- in a BullMQ queue. `Schema` has one record for each table (qa-lab-backend/prisma/schema.prisma)
-- and one, `Db`, for the whole state: a table is the list of its rows, the queue the list of the
-- scans that wait, the limiter's Redis keys an association list. `Base.Rows` has the query forms
-- that the services use (find, update, count, delete, each with its `where`).
--
-- The services. A method is an `Action`: it takes the state and returns a value or an exception,
-- each with the state as it is left (`Program`); what was written before a throw stays written,
-- and a transaction is one step. `Program.Rules` has the rules by which the proofs go through a
-- method statement by statement. A method runs without other requests between its queries, except
-- where interleaving is the point: `Limiter.Workers` interleaves the single Redis commands of
-- several workers, and the worker takes as an argument what other requests write while its scanner
-- runs, which `Lifecycle` fills with any history of such steps. Time, fresh identifiers and random
-- texts are arguments of the call.
--
-- The files and the code:
--   Slug            slugify and uniqueSlug, the same in projects, organizations and auth
--   Organizations   qa-lab-backend/src/organizations/organizations.service.ts
--   Projects        qa-lab-backend/src/projects/projects.service.ts
--   Quotas          qa-lab-backend/src/quotas/quotas.service.ts
--   DomainVerify    qa-lab-backend/src/domain-verify/domain-verify.service.ts
--   Websites        qa-lab-backend/src/websites/websites.service.ts
--   Limiter         qa-lab-backend/src/scans/org-concurrency.limiter.ts
--   Scans           qa-lab-backend/src/scans/scans.service.ts
--   Worker          qa-lab-backend/src/scans/scan.processor.ts
--   Reaper          qa-lab-backend/src/scans/scan-reaper.service.ts
--   ChildRunner     qa-lab-backend/src/scans/scan-child-runner.ts
--   Lifecycle       histories of the scan operations above
--   Schedules       qa-lab-backend/src/schedules/schedules.service.ts
--   ApiKeys         qa-lab-backend/src/api-keys/api-keys.service.ts, and
--                   qa-lab-backend/src/auth/guards/scopes.guard.ts
--   Auth            qa-lab-backend/src/auth/auth.service.ts
--   Scanner         the scanner, src/, as follows
--     Findings      src/findingAggregator.js, src/core/finding.js and src/constants
--     Scoring       src/scoring.js, on the rounded doubles of Scoring.Doubles
--     QualityGate   src/qualityGate.js
--     Comparison    src/scanComparison.js and src/recommendations/index.js
--     Runs          how a function of the scanner ends: a value or what it throws
--     Urls          src/utils/urlNormalizer.js
--     Crawler       src/siteCrawler.js and src/pageFetcher.js
--     RobotsTxt     src/robotsTxt.js and src/sitemapParser.js
--     RateLimiter   src/utils/rateLimiter.js
--     Pool          src/utils/concurrency.js
--     SsrfGuard     src/utils/ssrfGuard.js
--     SafeHttp      src/utils/safeHttp.js
--     RuleEngine    src/ruleEngine.js and src/core/ruleRegistry.js
--     Rules         src/rules/securityRules.js, formRules.js, performanceRules.js,
--                   accessibilityRules.js, linkRules.js and functionalityRules.js, on the page
--                   that src/normalizer.js makes
--     Scan          src/lib/scan.js, which puts these together
--   Tests           example data, and each result at a concrete input
-- An operation has the method's name in snake_case (`requireMembership` is `require_membership`);
-- what is proved of a service stands in the files below it. `requireMembership` is called by all
-- services, the quotas by the websites and the scans, the worker calls the limiter, and API keys
-- and users reach the scans by different ways (`create_for_principal`).
--
-- The scanner. `Scan` guards the URL, loads the rules and crawls with a callback that runs the
-- rules on each page; the final rules, the grouping and the score follow. The crawl is a loop on
-- levels; the requests of a level run in the pool, whose workers `Pool` interleaves by a schedule;
-- each request goes through the guard hop by hop. The backend's worker takes the scanner as an
-- argument (`Env.scanner`), and the services its guard (`safe`): its result may
-- cross a process, so that the two sides are modelled apart.
--
-- Outside the model, as arguments: bcrypt, sha256, scrypt and the check of a TOTP code (`Crypto`),
-- the answers of DNS and of servers, the URL parser, the library ipaddr.js, cheerio, whether the
-- queue accepts a job, what Prisma makes of NaN for an integer column, and JavaScript's `trim` and
-- `toLowerCase` (`TextOps`). Digests and identifiers are numbers, which are only compared.
--
-- Bounds. The search for a slug makes twenty attempts and a tick of the schedules has at most
-- twenty turns, as in the code; the crawl has its bound on pages as fuel, since each round
-- fetches a page; an address is looked into two levels deep, since the one inside is IPv4; a
-- request has the hops that its bound on redirects leaves; all other recursion is on the list of
-- rows, of events or of characters. The score is computed on doubles in units of 2^-55, exact
-- below 2^53 of them and rounded above.
--
-- Not modelled: controllers, modules and DTO validation, connections, mail, logs and health checks;
-- the rows of the audit log; registration, TOTP enrolment, the guard that reads the headers,
-- retention, CSRF, throttling, metrics and the web application; of the scanner the rules on
-- assets, search engines and exposed paths, the reading of HTML, the probes of paths and assets,
-- the reports and the command line.
-- Foreign keys are taken to hold: a row that a required relation names is there.
pub mod Base
pub mod Schema
pub mod Program
pub mod Slug
pub mod Organizations
pub mod Projects
pub mod Quotas
pub mod DomainVerify
pub mod Websites
pub mod Limiter
pub mod Scans
pub mod Worker
pub mod Reaper
pub mod ChildRunner
pub mod Lifecycle
pub mod Auth
pub mod Schedules
pub mod ApiKeys
pub mod Scanner
pub mod Tests

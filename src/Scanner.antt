-- ===== src/Scanner.antt =====
-- The scanner library, src/: findings and their score, the quality gate, the comparison of two
-- scans, the rule engine, the crawler and the guards of outgoing requests.
pub mod Runs
pub mod Urls
pub mod Findings
pub mod Scoring
pub mod QualityGate
pub mod Comparison
pub mod Crawler
pub mod SsrfGuard
pub mod SafeHttp
pub mod Pool
pub mod RuleEngine
pub mod Scan
pub mod RobotsTxt
pub mod Rules
pub mod RateLimiter

-- ===== src/Scanner/Rules/Performance/Cards.antt =====
-- The findings that src/rules/performanceRules.js creates.
use qa_lab.Base.{Text}
use qa_lab.Scanner.Findings.{Finding, high, low, medium, performance}

abbrev pub perf001 : Text → Finding
perf001 url = record {
  id = "PERF001";
  title = "Very Slow Page Response";
  category = performance;
  severity = high;
  confidence = 100;
  page = url;
  recommendation =
      "Reduce server response time to under 2 seconds by optimizing backend processing, database queries, caching, and infrastructure.";
}

abbrev pub perf002 : Text → Finding
perf002 url = record {
  id = "PERF002";
  title = "Slow Page Response";
  category = performance;
  severity = medium;
  confidence = 100;
  page = url;
  recommendation =
      "Optimize backend processing, caching, and database queries to improve response time.";
}

abbrev pub perf003 : Text → Finding
perf003 url = record {
  id = "PERF003";
  title = "Response Not Compressed";
  category = performance;
  severity = medium;
  confidence = 100;
  page = url;
  recommendation = "Enable gzip or Brotli compression on your server to reduce transfer size.";
}

abbrev pub perf004 : Text → Finding
perf004 url = record {
  id = "PERF004";
  title = "Missing Cache-Control Header";
  category = performance;
  severity = low;
  confidence = 100;
  page = url;
  recommendation =
      "Set an appropriate Cache-Control header so browsers and CDNs can cache the response.";
}

abbrev pub perf005 : Text → Finding
perf005 url = record {
  id = "PERF005";
  title = "Large HTML Payload";
  category = performance;
  severity = medium;
  confidence = 100;
  page = url;
  recommendation =
      "Reduce initial HTML size: paginate large lists, lazy-load below-the-fold content, and trim unnecessary markup.";
}

abbrev pub perf006 : Text → Finding
perf006 url = record {
  id = "PERF006";
  title = "Render-Blocking Script";
  category = performance;
  severity = medium;
  confidence = 100;
  page = url;
  recommendation =
      "Add the async or defer attribute to non-critical scripts in <head>, or move them to the end of <body>.";
}
